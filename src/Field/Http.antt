-- ===== src/Field/Http.antt =====
-- src/export.c: the private fields of Cisco that hold a host, a URL, a referer or a user agent,
-- and the registered domain of a host.
use f2k.Escape.{append_escaped}
use f2k.Field.{ExportFn}
use f2k.Field.Cache.{Flow}
use f2k.Printbuf.{Printbuf, Allocator}
use f2k.Base.{
  ◌>>=◌, ℕ, zero, suc, Bool, true, false, ◌&&◌, Option, none, some, List, [], ◌∷◌, ◌++◌, ltb, leb,
  ◌==◌, if◌then◌else◌, length, drop,
}
use f2k.Base.Bytes.{Pointer, read_bytes}

-- `0 == memcmp(p, bytes, length bytes)`, also of `strncmp` on a literal
unfoldable pub starts_with : List ℕ → List ℕ → Bool
starts_with [] s = true
starts_with (c ∷ cs) [] = false
starts_with (c ∷ cs) (b ∷ bs) = (b == c) && starts_with cs bs

-- The text in front of the first `c`, of `memchr`.
unfoldable pub before_first : ℕ → List ℕ → Option (List ℕ)
before_first c [] = none
before_first c (b ∷ bs) =
    let rest = before_first c bs in
    if b == c then some [] else elim rest [ none ↦ none | some front ↦ some (b ∷ front) ]

-- The text in front of the last `c`, and the text from there on: `memrchr`.
unfoldable pub split_last : ℕ → List ℕ → Option (List ℕ × List ℕ)
split_last c [] = none
split_last c (b ∷ bs) = elim (split_last c bs) [
  | some (front, back) ↦ some (b ∷ front, back)
  | none ↦ if b == c then some ([], b ∷ bs) else none
]

-- `memcchrnul`: what is left behind the leading `c`.
unfoldable pub skip_char : ℕ → List ℕ → List ℕ
skip_char c [] = []
skip_char c (b ∷ bs) = let rest = skip_char c bs in if b == c then rest else b ∷ bs

-- "http://"
abbrev pub http_header : List ℕ
http_header = b'h' ∷ b't' ∷ b't' ∷ b'p' ∷ b':' ∷ b'/' ∷ b'/' ∷ []

-- "https://"
abbrev pub https_header : List ℕ
https_header = b'h' ∷ b't' ∷ b't' ∷ b'p' ∷ b's' ∷ b':' ∷ b'/' ∷ b'/' ∷ []

-- `buffer_is_ip`; `is_ip_text` is `inet_pton` on a text.
unfoldable pub buffer_is_ip : (List ℕ → Bool) → List ℕ → Bool
buffer_is_ip is_ip_text buf = if ltb 39 (length buf) then false else is_ip_text buf

-- The part of a clean host name that is printed: the last two labels.
unfoldable pub last_labels : List ℕ → List ℕ
last_labels hostname = elim (split_last b'.' hostname) [
  | none ↦ skip_char b'.' hostname
  | some (front, l1) ↦ elim (split_last b'.' front) [
    | none ↦ skip_char b'.' hostname
    | some (front2, l2) ↦ skip_char b'.' (l2 ++ l1)
  ]
]

-- The text that `print_http_l2_domain` escapes. Each call is on a shorter text; `none` means that
-- the fuel ran out.
unfoldable pub l2_domain : (List ℕ → Bool) → ℕ → List ℕ → Option (List ℕ)
l2_domain is_ip_text zero hostname = none
l2_domain is_ip_text (suc fuel) hostname =
    let after_http = l2_domain is_ip_text fuel (drop 7 hostname) in
    let after_https = l2_domain is_ip_text fuel (drop 8 hostname) in
    if starts_with http_header hostname
    then after_http
    else if starts_with https_header hostname
    then after_https
    else elim (before_first b'/' hostname) [
      | some no_url ↦ l2_domain is_ip_text fuel no_url
      | none ↦
          if buffer_is_ip is_ip_text hostname then some hostname else some (last_labels hostname)
    ]

-- `extract_flowcache_host`: the null pointer has length 0.
unfoldable pub extract_flowcache_host : Flow → List ℕ
extract_flowcache_host cache = elim cache.http_host [
  | some host ↦ host
  | none ↦ elim cache.ssl_common_name [ some name ↦ name | none ↦ [] ]
]

unfoldable pub extract_flowcache_referer : Flow → List ℕ
extract_flowcache_referer cache = elim cache.http_referer [
  | some referer ↦ referer
  | none ↦ extract_flowcache_host cache
]

-- The content of a field that `cisco_private_decorator` passes on, behind its identifier.
unfoldable pub cisco_private_content : Pointer → ℕ → List ℕ → Option (List ℕ)
cisco_private_content buffer len expected =
    if leb len (length expected)
    then none
    else if starts_with expected (read_bytes len buffer)
    then some (drop (length expected) (read_bytes len buffer))
    else none

abbrev pub http_url_id : List ℕ
http_url_id = 0x03 ∷ 0x00 ∷ 0x00 ∷ 0x50 ∷ 0x34 ∷ 0x01 ∷ []

abbrev pub http_host_id : List ℕ
http_host_id = 0x03 ∷ 0x00 ∷ 0x00 ∷ 0x50 ∷ 0x34 ∷ 0x02 ∷ []

abbrev pub http_ua_id : List ℕ
http_ua_id = 0x03 ∷ 0x00 ∷ 0x00 ∷ 0x50 ∷ 0x34 ∷ 0x03 ∷ []

abbrev pub http_referer_id : List ℕ
http_referer_id = 0x03 ∷ 0x00 ∷ 0x00 ∷ 0x50 ∷ 0x34 ∷ 0x04 ∷ []

abbrev pub https_common_name_nbar_id : List ℕ
https_common_name_nbar_id = 0x0d ∷ 0x00 ∷ 0x01 ∷ 0xc5 ∷ 0x34 ∷ 0x01 ∷ []

-- A field that is not the one expected leaves what was saved.
abbrev pub kept : Option (List ℕ) → Option (List ℕ) → Option (List ℕ)
kept none old = old
kept (some text) old = some text

module _ (heap : Allocator) where
  -- The text escaped, or nothing.
  abbrev pub print_escaped : Option (List ℕ) → Printbuf → Flow → Option (ℕ × Printbuf × Flow)
  print_escaped none p cache = some (0, p, cache)
  print_escaped (some text) p cache = do (n, q) ← append_escaped heap p text; some (n, q, cache)

  unfoldable pub print_cisco_private_buffer : List ℕ → ExportFn Flow
  print_cisco_private_buffer expected p buffer len cache =
      print_escaped (cisco_private_content buffer len expected) p cache

  unfoldable pub print_http_url : ExportFn Flow
  print_http_url = print_cisco_private_buffer http_url_id

  unfoldable pub print_http_user_agent : ExportFn Flow
  print_http_user_agent = print_cisco_private_buffer http_ua_id

  unfoldable pub print_http_host : ExportFn Flow
  print_http_host p buffer len cache =
      let content = cisco_private_content buffer len http_host_id in
      print_cisco_private_buffer http_host_id p buffer len
        (record cache { http_host = kept content cache.http_host })

  unfoldable pub print_http_referer : ExportFn Flow
  print_http_referer p buffer len cache =
      let content = cisco_private_content buffer len http_referer_id in
      print_cisco_private_buffer http_referer_id p buffer len
        (record cache { http_referer = kept content cache.http_referer })

  unfoldable pub print_https_common_name : ExportFn Flow
  print_https_common_name p buffer len cache =
      let content = cisco_private_content buffer len https_common_name_nbar_id in
      print_cisco_private_buffer https_common_name_nbar_id p buffer len
        (record cache { ssl_common_name = kept content cache.ssl_common_name })

  -- A name has fuel for each of its bytes.
  unfoldable pub print_http_l2_domain :
      (List ℕ → Bool) → List ℕ → Printbuf → Flow → Option (ℕ × Printbuf × Flow)
  print_http_l2_domain is_ip_text hostname p cache = do
    text ← l2_domain is_ip_text (suc (length hostname)) hostname
    print_escaped (some text) p cache

  unfoldable pub print_http_host_l2 : (List ℕ → Bool) → ExportFn Flow
  print_http_host_l2 is_ip_text p buffer len cache =
      elim (cisco_private_content buffer len http_host_id) [
        | none ↦ some (0, p, cache)
        | some host ↦ print_http_l2_domain is_ip_text host p cache
      ]

  unfoldable pub print_host : ExportFn Flow
  print_host p buffer len cache = print_escaped (some (extract_flowcache_host cache)) p cache

  unfoldable pub print_referer : ExportFn Flow
  print_referer p buffer len cache = elim cache.http_referer [
    | some referer ↦ print_escaped (some referer) p cache
    | none ↦ print_host p buffer len cache
  ]

  unfoldable pub print_host_l2 : (List ℕ → Bool) → ExportFn Flow
  print_host_l2 is_ip_text p buffer len cache =
      print_http_l2_domain is_ip_text (extract_flowcache_host cache) p cache

  unfoldable pub print_referer_l2 : (List ℕ → Bool) → ExportFn Flow
  print_referer_l2 is_ip_text p buffer len cache =
      print_http_l2_domain is_ip_text (extract_flowcache_referer cache) p cache
