-- ===== src/Field/Shown/Call.antt =====
-- A call of a printing function under the conditions of `Shows`, and the steps that the functions
-- share.
use f2k.Field.Shown.{name_text}
use f2k.Field.Plain.{print_n10}
use f2k.Escape.{append_escaped}
use f2k.Direction.{printbuf_memappend_fast_string, print_known_word}
use f2k.Field.Members.{Showing}
use f2k.Field.Line.{IsReady}
use f2k.Field.Address.{print_mac0, print_ipv4_addr0, print_ipv6_addr0}
use f2k.Field.Texts.{length-mac_text, length-ipv6_text, mac_text, escape, ipv6_text, number_text}
use f2k.Field.Writes.{
  shows-escaped, number-Copied, shows-mac, shows-ipv6, shows-text, shows-nothing, Wrote,
}
use f2k.Printbuf.{printbuf_memappend_fast, Printbuf, Allocator}
use f2k.Number.{intoa_v4}
use f2k.Field.Cache.{Flow, Databases}
use f2k.Number.Dotted.{length-intoa_v4}
use f2k.Base.{
  ◌>>=◌, ℕ, ◌+◌, ◌^◌, ◌≤◌, ◌<◌, ◌≡◌, ◌≢◌, refl, Bool, true, false, Option, none, some, List, [],
  arith, if◌then◌else◌, length,
}
use f2k.Base.Bytes.{Pointer, IsMemory}

-- A value has less than 2 ^ 18 bytes: a text of less than 2 ^ 16 bytes, escaped, at most.
abbrev pub value_limit : ℕ
value_limit = 2 ^ 18

abbrev pub IsShortText : Option (List ℕ) → Type 0
IsShortText none = Unit
IsShortText (some text) = length text < 2 ^ 16

-- The texts of the cache came from fields of a record, or from the DNS.
abbrev pub IsGood : Flow → Type 0
IsGood cache =
    IsShortText cache.http_referer
    × IsShortText cache.http_host
    × IsShortText cache.ssl_common_name
    × IsShortText cache.client_name
    × IsShortText cache.target_name
    × IsShortText cache.client_name_cache
    × IsShortText cache.target_name_cache

-- The names of the tables are short.
pub record HasShortNames (db : Databases) : Type 0 where
  pub network_ip : (a : ℕ) → IsShortText (db.network_ip a)
  pub network_name : (a : ℕ) → IsShortText (db.network_name a)
  pub nets :
      (a : ℕ) (assoc : List ℕ × List ℕ)
      → db.nets a ≡ some assoc
      → (length assoc.0 < 2 ^ 16) × (length assoc.1 < 2 ^ 16)
  pub mac_vendor : (a : ℕ) → IsShortText (db.mac_vendor a)
  pub engine_name : (a : ℕ) → IsShortText (db.engine_name a)
  pub application_name : (a : ℕ) → IsShortText (db.application_name a)
  pub app_name : (a : ℕ) → IsShortText (db.app_name a)
  pub country_code : (a : ℕ) → IsShortText (db.country_code a)
  pub country_code_v6 : (a : ℕ) → IsShortText (db.country_code_v6 a)

pub record Call (heap : Allocator) (db : Databases) (p : Printbuf) (buffer : Pointer) (len : ℕ)
    (cache : Flow) : Type 0 where
  pub never : (old : List ℕ) (n : ℕ) → heap.realloc old n ≢ none
  pub names : HasShortNames db
  pub memory : IsMemory buffer
  pub small : len < 2 ^ 16
  pub ready : IsReady p
  pub room : p.bpos + value_limit < 2 ^ 31
  pub good : IsGood cache

abbrev pub Shown : Printbuf → List ℕ × Flow → Option (ℕ × Printbuf × Flow) → Type 0
Shown = Showing IsGood value_limit

pub show-if :
    (p : Printbuf) (b : Bool) {v w : List ℕ × Flow} {r s : Option (ℕ × Printbuf × Flow)}
    → Shown p v r
    → Shown p w s
    → Shown p (if b then v else w) (if b then r else s)
show-if p true x y = x
show-if p false x y = y

module _ {heap : Allocator} {db : Databases} {p : Printbuf} {buffer : Pointer} {len : ℕ}
    {cache : Flow} (k : Call heap db p buffer len cache) where
  pub wrote :
      (v : List ℕ) (c : Flow) {r : Option (ℕ × Printbuf × Flow)}
      → Wrote p v c r
      → length v ≤ value_limit
      → IsGood c
      → Shown p (v, c) r
  wrote v c (q, e, x) l g = (q, e, x, l, g)

  pub show-nothing : (c : Flow) → IsGood c → Shown p ([], c) (some (0, p, c))
  show-nothing c g = wrote [] c (shows-nothing p c k.ready) (omega arith) g

  pub show-text :
      (t : List ℕ)
      → length t ≤ value_limit
      → Shown p (t, cache) (some (length t, printbuf_memappend_fast heap p t, cache))
  show-text t l =
      wrote t cache (shows-text heap k.never p cache k.ready t (omega (arith, k.room))) l k.good

  pub show-number :
      (value : ℕ)
      → value < 2 ^ 64
      → Shown p (number_text value, cache) (print_n10 heap value p cache)
  show-number value h =
      let (q, e, x, l) =
        number-Copied heap k.never p cache k.ready value h (omega (arith, k.room)) in
      (q, rw e refl, x, omega arith, k.good)

  pub show-name :
      (name : Option (List ℕ))
      → IsShortText name
      → let (n, q) = print_known_word heap p name in
        Shown p (name_text name, cache) (some (n, q, cache))
  unfolding print_known_word printbuf_memappend_fast_string
  show-name none h = show-nothing cache k.good
  show-name (some text) h = show-text text (omega arith)

  pub show-escaped :
      (text : List ℕ) (c : Flow)
      → length text < 2 ^ 16
      → IsGood c
      → Shown p (escape text, c) (do (n, q) ← append_escaped heap p text; some (n, q, c))
  show-escaped text c h g =
      let (x, l) =
        shows-escaped heap k.never p c k.ready text (omega (arith, h)) (omega (arith, k.room)) in
      wrote (escape text) c x (omega arith) g

  pub show-mac :
      (mac : Pointer) (c : Flow)
      → IsGood c
      → let (n, q) = print_mac0 heap p mac in Shown p (mac_text 6 mac, c) (some (n, q, c))
  show-mac mac c g =
      wrote (mac_text 6 mac) c (shows-mac heap k.never p c k.ready mac (omega (arith, k.room)))
        (omega (arith, length-mac_text 5 mac)) g

  pub show-ipv6 :
      (address : Pointer) (c : Flow)
      → IsGood c
      → let (n, q) = print_ipv6_addr0 heap p address in
        Shown p (ipv6_text 8 address, c) (some (n, q, c))
  show-ipv6 address c g =
      wrote (ipv6_text 8 address) c
        (shows-ipv6 heap k.never p c k.ready address (omega (arith, k.room)))
        (omega (arith, length-ipv6_text 7 address)) g

  pub show-ipv4 :
      (ipv4 : ℕ) (c : Flow)
      → IsGood c
      → let (n, q) = print_ipv4_addr0 heap p ipv4 in Shown p (intoa_v4 ipv4, c) (some (n, q, c))
  unfolding print_ipv4_addr0
  show-ipv4 ipv4 c g =
      wrote (intoa_v4 ipv4) c
        (shows-text heap k.never p c k.ready (intoa_v4 ipv4)
          (omega (arith, k.room, length-intoa_v4 ipv4)))
        (omega (arith, length-intoa_v4 ipv4)) g
