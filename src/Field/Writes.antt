-- ===== src/Field/Writes.antt =====
-- The calls that append the texts of the fields.
use f2k.Field.Texts.{
  length-ipv6_text, length-mac_text, Escapes-text, number_text-eq, ipv6_text, escape, hex_pair,
  tail_text, mac_text, number_text,
}
use f2k.Field.Cache.{Databases}
use f2k.Field.Names.{vendor_loop}
use f2k.Field.Address.{print_ipv6_addr0, print_mac0, ipv6_loop, mac_loop}
use f2k.Number.Decimal.{signed_text, itoa10_lem}
use f2k.Printbuf.Append.{memappend_fast-Copied, Copied-nil, Copied}
use f2k.Field.Line.{IsReady}
use f2k.Number.{printbuf_memappend_fast_n10}
use f2k.Printbuf.{sub_size, printbuf_memappend_fast, Printbuf, Allocator}
use f2k.Escape.{printbuf_memappend_fast_n16, append_escaped, hexbuf}
use f2k.Escape.Relation.{length-Escapes, append_escaped-Copied}
use f2k.Field.Open.{appended}
use f2k.Base.{
  ◌>>=◌, ℕ, zero, suc, ◌+◌, ◌*◌, ◌/◌, ◌%◌, ◌^◌, ◌≤◌, ◌<◌, ◌≡◌, ◌≢◌, refl, sym, ap, subst, ◌∙◌, Bool,
  true, false, Option, none, some, List, [], ◌∷◌, ◌++◌, append-nil, append_assoc, arith, ◌==◌,
  if◌then◌else◌, length, length-append,
}
use f2k.Base.Bytes.{Pointer, advance}

-- A call that appended exactly the bytes `v`, returned their number and left `cache`.
abbrev pub Wrote : {C : Type 0} → Printbuf → List ℕ → C → Option (ℕ × Printbuf × C) → Type 0
Wrote p v cache result = (q : Printbuf) × (result ≡ some (length v, q, cache)) × Copied p v q

pub shows-nothing :
    {C : Type 0} (p : Printbuf) (cache : C) → IsReady p → Wrote p [] cache (some (0, p, cache))
shows-nothing p cache r = (p, refl, Copied-nil p r.valid r.ends)

module _ (heap : Allocator) (never : (old : List ℕ) (n : ℕ) → heap.realloc old n ≢ none) where
  hex-Copied :
      (p q : Printbuf) (a : List ℕ) (b : ℕ)
      → Copied p a q
      → p.bpos + length a + 2 < 2 ^ 60
      → Copied p (a ++ hex_pair b) (printbuf_memappend_fast_n16 heap q b)
  unfolding printbuf_memappend_fast_n16
  hex-Copied p q a b x h =
      let x1 = appended heap never p q a (hexbuf (b / 16) ∷ []) x (omega arith) in
      let q1 = printbuf_memappend_fast heap q (hexbuf (b / 16) ∷ []) in
      let x2 =
        appended heap never p q1 (a ++ (hexbuf (b / 16) ∷ [])) (hexbuf (b % 16) ∷ []) x1
          (omega (arith, length-append a (hexbuf (b / 16) ∷ []))) in
      subst (λ t. Copied p t (printbuf_memappend_fast_n16 heap q b))
        (append_assoc a (hexbuf (b / 16) ∷ []) (hexbuf (b % 16) ∷ [])) x2

  colon-Copied :
      (p q : Printbuf) (a : List ℕ) (last : Bool)
      → Copied p a q
      → p.bpos + length a + 1 < 2 ^ 60
      → Copied p
          (a ++ (if last then [] else b':' ∷ []))
          (if last then q else printbuf_memappend_fast heap q (b':' ∷ []))
  colon-Copied p q a true x h = subst (λ t. Copied p t q) (sym (append-nil a)) x
  colon-Copied p q a false x h = appended heap never p q a (b':' ∷ []) x h

  length-colon : (last : Bool) → length {A = ℕ} (if last then [] else b':' ∷ []) ≤ 1
  length-colon true = omega arith
  length-colon false = omega arith

  pub mac_loop-Copied :
      (n : ℕ) (buffer : Pointer) (p q : Printbuf) (a : List ℕ)
      → Copied p a q
      → p.bpos + length a + 3 * n < 2 ^ 60
      → Copied p (a ++ mac_text n buffer) (mac_loop heap n buffer q)
  unfolding mac_loop mac_text
  mac_loop-Copied zero buffer p q a x h = subst (λ t. Copied p t q) (sym (append-nil a)) x
  mac_loop-Copied (suc n) buffer p q a x h =
      let colon : List ℕ = if n == 0 then [] else b':' ∷ [] in
      let q1 = printbuf_memappend_fast_n16 heap q (buffer 0) in
      let a1 = a ++ hex_pair (buffer 0) in
      let l1 = length-append a (hex_pair (buffer 0)) in
      let x1 = hex-Copied p q a (buffer 0) x (omega arith) in
      let x2 = colon-Copied p q1 a1 (n == 0) x1 (omega arith) in
      let x3 =
        mac_loop-Copied n (advance buffer 1) p _ (a1 ++ colon) x2
          (omega (arith, length-append a1 colon, length-colon (n == 0))) in
      subst (λ t. Copied p t (mac_loop heap (suc n) buffer q))
        (append_assoc a1 colon (mac_text n (advance buffer 1))
          ∙ append_assoc a (hex_pair (buffer 0)) (colon ++ mac_text n (advance buffer 1)))
        x3

  pub ipv6_loop-Copied :
      (n : ℕ) (buffer : Pointer) (p q : Printbuf) (a : List ℕ)
      → Copied p a q
      → p.bpos + length a + 5 * n < 2 ^ 60
      → Copied p (a ++ ipv6_text n buffer) (ipv6_loop heap n buffer q)
  unfolding ipv6_loop ipv6_text
  ipv6_loop-Copied zero buffer p q a x h = subst (λ t. Copied p t q) (sym (append-nil a)) x
  ipv6_loop-Copied (suc n) buffer p q a x h =
      let colon : List ℕ = if n == 0 then [] else b':' ∷ [] in
      let q1 = printbuf_memappend_fast_n16 heap q (buffer 0) in
      let q2 = printbuf_memappend_fast_n16 heap q1 (buffer 1) in
      let a1 = a ++ hex_pair (buffer 0) in
      let l1 = length-append a (hex_pair (buffer 0)) in
      let a2 = a1 ++ hex_pair (buffer 1) in
      let l2 = length-append a1 (hex_pair (buffer 1)) in
      let rest = ipv6_text n (advance buffer 2) in
      let x1 = hex-Copied p q a (buffer 0) x (omega arith) in
      let x2 = hex-Copied p q1 a1 (buffer 1) x1 (omega arith) in
      let x3 = colon-Copied p q2 a2 (n == 0) x2 (omega arith) in
      let x4 =
        ipv6_loop-Copied n (advance buffer 2) p _ (a2 ++ colon) x3
          (omega (arith, length-append a2 colon, length-colon (n == 0))) in
      subst (λ t. Copied p t (ipv6_loop heap (suc n) buffer q))
        (append_assoc a2 colon rest
          ∙ append_assoc a1 (hex_pair (buffer 1)) (colon ++ rest)
          ∙ append_assoc a (hex_pair (buffer 0)) (hex_pair (buffer 1) ++ (colon ++ rest)))
        x4

  pub vendor_loop-Copied :
      (db : Databases) (n : ℕ) (buffer : Pointer) (p q : Printbuf) (a : List ℕ)
      → Copied p a q
      → p.bpos + length a + 3 * n < 2 ^ 60
      → Copied p (a ++ tail_text n buffer) (vendor_loop heap db n buffer q)
  unfolding vendor_loop tail_text
  vendor_loop-Copied db zero buffer p q a x h = subst (λ t. Copied p t q) (sym (append-nil a)) x
  vendor_loop-Copied db (suc n) buffer p q a x h =
      let q1 = printbuf_memappend_fast heap q (b':' ∷ []) in
      let a1 = a ++ (b':' ∷ []) in
      let l1 = length-append a (b':' ∷ []) in
      let a2 = a1 ++ hex_pair (buffer 0) in
      let l2 = length-append a1 (hex_pair (buffer 0)) in
      let rest = tail_text n (advance buffer 1) in
      let x1 = appended heap never p q a (b':' ∷ []) x (omega arith) in
      let x2 = hex-Copied p q1 a1 (buffer 0) x1 (omega arith) in
      let x3 = vendor_loop-Copied db n (advance buffer 1) p _ a2 x2 (omega arith) in
      subst (λ t. Copied p t (vendor_loop heap db (suc n) buffer q))
        (append_assoc a1 (hex_pair (buffer 0)) rest
          ∙ append_assoc a (b':' ∷ []) (hex_pair (buffer 0) ++ rest))
        x3

module _ (heap : Allocator) (never : (old : List ℕ) (n : ℕ) → heap.realloc old n ≢ none)
    {C : Type 0} (p : Printbuf) (cache : C) (r : IsReady p) where
  pub shows-text :
      (t : List ℕ)
      → p.bpos + length t < 2 ^ 60
      → Wrote p t cache (some (length t, printbuf_memappend_fast heap p t, cache))
  shows-text t f =
      (printbuf_memappend_fast heap p t, refl, memappend_fast-Copied heap p t never r.valid f)

  -- The result counted from `bpos`.
  pub shows-moved :
      (t : List ℕ) (q : Printbuf)
      → p.bpos + length t < 2 ^ 60
      → Copied p t q
      → Wrote p t cache (some (sub_size q.bpos p.bpos, q, cache))
  shows-moved t q f x = (q, ap (λ n. some (n, q, cache)) (omega (arith, x.moved)), x)

  -- A number has at most 21 bytes.
  pub number-Copied :
      (value : ℕ)
      → value < 2 ^ 64
      → p.bpos + 21 < 2 ^ 60
      → (q : Printbuf) × (printbuf_memappend_fast_n10 heap p value
          ≡ some (length (number_text value), q))
        × Copied p (number_text value) q
        × (length (number_text value) ≤ 21)
  unfolding printbuf_memappend_fast_n10
  number-Copied value h f =
      let (d, x, e) = itoa10_lem value h in
      let t = signed_text value d in
      let same = number_text-eq value t e in
      (
        printbuf_memappend_fast heap p t,
        rw (e, printbuf_memappend_fast_n10)
            (ap (λ u. some (length u, printbuf_memappend_fast heap p t)) (sym same)),
        subst (λ u. Copied p u (printbuf_memappend_fast heap p t)) (sym same)
            (memappend_fast-Copied heap p t never r.valid (ground (arith, x))),
        subst (λ u. length u ≤ 21) (sym same) (ground (arith, x)),
      )

  pub shows-escaped :
      (s : List ℕ)
      → length s < 2 ^ 32
      → p.bpos + 3 * length s + 4 < 2 ^ 60
      → Wrote p (escape s) cache (do (n, q) ← append_escaped heap p s; some (n, q, cache))
        × (length (escape s) ≤ 3 * length s)
  shows-escaped s small f =
      let (out, q, d, x, n) = append_escaped-Copied heap never p s small r.valid r.ends f in
      let e = Escapes-text (length s) s out (omega arith) d in
      (
        (
          q,
          rw n (ap (λ t. some (length t, q, cache)) (sym e)),
          subst (λ t. Copied p t q) (sym e) x,
        ),
        subst (λ t. length t ≤ 3 * length s) (sym e) (length-Escapes d).1,
      )

  pub shows-mac :
      (buffer : Pointer)
      → p.bpos + 18 < 2 ^ 60
      → let (n, q) = print_mac0 heap p buffer in
        Wrote p (mac_text 6 buffer) cache (some (n, q, cache))
  unfolding print_mac0
  shows-mac buffer f = (
    mac_loop heap 6 buffer p,
    ap (λ k. some (k, mac_loop heap 6 buffer p, cache)) (sym (length-mac_text 5 buffer)),
    mac_loop-Copied heap never 6 buffer p p [] (Copied-nil p r.valid r.ends) (omega arith),
  )

  pub shows-ipv6 :
      (buffer : Pointer)
      → p.bpos + 40 < 2 ^ 60
      → let (n, q) = print_ipv6_addr0 heap p buffer in
        Wrote p (ipv6_text 8 buffer) cache (some (n, q, cache))
  unfolding print_ipv6_addr0
  shows-ipv6 buffer f = (
    ipv6_loop heap 8 buffer p,
    ap (λ k. some (k, ipv6_loop heap 8 buffer p, cache)) (sym (length-ipv6_text 7 buffer)),
    ipv6_loop-Copied heap never 8 buffer p p [] (Copied-nil p r.valid r.ends) (omega arith),
  )
