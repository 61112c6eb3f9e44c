-- ===== src/Field/Shown/Http.antt =====
-- The functions that print hosts, URLs and the other texts of HTTP.
use f2k.Field.Domain.{length-IsPart, l2_domain-IsPart}
use f2k.Field.Table.{call}
use f2k.Field.Http.{
  starts_with, print_http_host, print_referer, print_http_host_l2, print_http_user_agent,
  print_host_l2, print_http_referer, print_http_url, print_referer_l2, print_https_common_name,
  print_cisco_private_buffer, print_http_l2_domain, print_host, cisco_private_content,
  extract_flowcache_host, extract_flowcache_referer, kept, http_url_id, http_ua_id, http_host_id,
  http_referer_id, https_common_name_nbar_id, print_escaped,
}
use f2k.Printbuf.{Printbuf, Allocator}
use f2k.Field.Shown.Call.{show-nothing, show-escaped, Shown, IsGood, Call, IsShortText}
use f2k.Field.Shown.Plain.{IsShown}
use f2k.Field.Shown.{escape, l2_text, escaped_name_text, Function, Flow, Databases, value}
use f2k.Base.{
  ℕ, suc, ◌^◌, ◌<◌, subst, inl, inr, Option, none, some, List, arith, leb, Bool-cases, Option-cases,
  length, length-drop,
}
use f2k.Base.Bytes.{Pointer, read_bytes, length-read_bytes}

-- The content of a field is no longer than the field.
cisco_private_content-short :
    (buffer : Pointer) (len : ℕ) (expected : List ℕ)
    → len < 2 ^ 16
    → IsShortText (cisco_private_content buffer len expected)
unfolding cisco_private_content
cisco_private_content-short buffer len expected h = elim (Bool-cases (leb len (length expected))) [
  | inl e ↦ rw (e, cisco_private_content) tt
  | inr e ↦ elim (Bool-cases (starts_with expected (read_bytes len buffer))) [
    | inl e1 ↦
        rw (e, cisco_private_content, e1)
          (omega (
            arith,
            length-drop (length expected) (read_bytes len buffer),
            length-read_bytes len buffer,
          ))
    | inr e1 ↦ rw (e, cisco_private_content, e1) tt
  ]
]

kept-short :
    (text old : Option (List ℕ)) → IsShortText text → IsShortText old → IsShortText (kept text old)
kept-short none old h g = g
kept-short (some text) old h g = h

host-short : (cache : Flow) → IsGood cache → length (extract_flowcache_host cache) < 2 ^ 16
unfolding extract_flowcache_host
host-short cache g = elim (Option-cases cache.http_host) [
  | inl e ↦ elim (Option-cases cache.ssl_common_name) [
    | inl e1 ↦ rw (e, extract_flowcache_host, e1) (omega arith)
    | inr (t, e1) ↦ rw (e, extract_flowcache_host, e1) (subst IsShortText e1 g.2)
  ]
  | inr (t, e) ↦ rw (e, extract_flowcache_host) (subst IsShortText e g.1)
]

referer-short : (cache : Flow) → IsGood cache → length (extract_flowcache_referer cache) < 2 ^ 16
unfolding extract_flowcache_referer
referer-short cache g = elim (Option-cases cache.http_referer) [
  | inl e ↦ rw (e, extract_flowcache_referer) (host-short cache g)
  | inr (t, e) ↦ rw (e, extract_flowcache_referer) (subst IsShortText e g.0)
]

module _ {heap : Allocator} {db : Databases} {p : Printbuf} {buffer : Pointer} {len : ℕ}
    {cache : Flow} (k : Call heap db p buffer len cache) where
  escaped-Shown :
      (text : Option (List ℕ)) (c : Flow)
      → IsShortText text
      → IsGood c
      → Shown p (escaped_name_text text, c) (print_escaped heap text p c)
  escaped-Shown none c h g = show-nothing k c g
  escaped-Shown (some text) c h g = show-escaped k text c h g

  cisco-Shown :
      (expected : List ℕ) (c : Flow)
      → IsGood c
      → Shown p
          (escaped_name_text (cisco_private_content buffer len expected), c)
          (print_cisco_private_buffer heap expected p buffer len c)
  unfolding print_cisco_private_buffer
  cisco-Shown expected c g =
      escaped-Shown _ c (cisco_private_content-short buffer len expected k.small) g

  pub print_http_url-Shown : IsShown k Function.print_http_url
  unfolding value call print_http_url
  print_http_url-Shown = cisco-Shown http_url_id cache k.good

  pub print_http_user_agent-Shown : IsShown k Function.print_http_user_agent
  unfolding value call print_http_user_agent
  print_http_user_agent-Shown = cisco-Shown http_ua_id cache k.good

  pub print_http_host-Shown : IsShown k Function.print_http_host
  unfolding value call print_http_host
  print_http_host-Shown =
      let short = cisco_private_content-short buffer len http_host_id k.small in
      cisco-Shown http_host_id _
        (k.good.0, kept-short _ _ short k.good.1, k.good.2, k.good.3, k.good.4, k.good.5, k.good.6)

  pub print_http_referer-Shown : IsShown k Function.print_http_referer
  unfolding value call print_http_referer
  print_http_referer-Shown =
      let short = cisco_private_content-short buffer len http_referer_id k.small in
      cisco-Shown http_referer_id _
        (kept-short _ _ short k.good.0, k.good.1, k.good.2, k.good.3, k.good.4, k.good.5, k.good.6)

  pub print_https_common_name-Shown : IsShown k Function.print_https_common_name
  unfolding value call print_https_common_name
  print_https_common_name-Shown =
      let short = cisco_private_content-short buffer len https_common_name_nbar_id k.small in
      cisco-Shown https_common_name_nbar_id _
        (k.good.0, k.good.1, kept-short _ _ short k.good.2, k.good.3, k.good.4, k.good.5, k.good.6)

  -- The registered domain of a name.
  domain-Shown :
      (hostname : List ℕ)
      → length hostname < 2 ^ 16
      → Shown p
          (l2_text db hostname, cache)
          (print_http_l2_domain heap db.is_ip_text hostname p cache)
  unfolding print_http_l2_domain
  domain-Shown hostname h =
      let (d, e, part) =
        l2_domain-IsPart db.is_ip_text (suc (length hostname)) hostname (omega arith) in
      rw e (show-escaped k d cache (omega (arith, length-IsPart d hostname part)) k.good)

  pub print_http_host_l2-Shown : IsShown k Function.print_http_host_l2
  unfolding value call print_http_host_l2
  print_http_host_l2-Shown = elim (Option-cases (cisco_private_content buffer len http_host_id)) [
    | inl e ↦ rw (e, value, print_http_host_l2) (show-nothing k cache k.good)
    | inr (host, e) ↦
        rw (e, value, print_http_host_l2)
          (domain-Shown host
            (subst IsShortText e (cisco_private_content-short buffer len http_host_id k.small)))
  ]

  host-Shown :
      Shown p (escape (extract_flowcache_host cache), cache) (print_host heap p buffer len cache)
  unfolding print_host
  host-Shown = show-escaped k _ cache (host-short cache k.good) k.good

  pub print_host-Shown : IsShown k Function.print_host
  unfolding value call
  print_host-Shown = host-Shown

  pub print_referer-Shown : IsShown k Function.print_referer
  unfolding value call print_referer
  print_referer-Shown = choose cache.http_referer k.good.0
    where
      choose :
          (o : Option (List ℕ))
          → IsShortText o
          → Shown p
              (elim o [
                | some referer ↦ (escape referer, cache)
                | none ↦ (escape (extract_flowcache_host cache), cache)
              ])
              (elim o [
                | some referer ↦ print_escaped heap (some referer) p cache
                | none ↦ print_host heap p buffer len cache
              ])
      choose none h = host-Shown
      choose (some referer) h = show-escaped k referer cache h k.good

  pub print_host_l2-Shown : IsShown k Function.print_host_l2
  unfolding value call print_host_l2
  print_host_l2-Shown = domain-Shown (extract_flowcache_host cache) (host-short cache k.good)

  pub print_referer_l2-Shown : IsShown k Function.print_referer_l2
  unfolding value call print_referer_l2
  print_referer_l2-Shown =
      domain-Shown (extract_flowcache_referer cache) (referer-short cache k.good)
