-- ===== src/Escape/Relation.antt =====
-- What escaping means: a relation between a text and its escaped form.
use f2k.Base.{
  max, get_or, ℕ, zero, suc, ◌+◌, ◌*◌, ◌/◌, ◌%◌, ◌^◌, ◌≤◌, ◌<◌, ◌≡◌, ◌≢◌, true, sym, ap, ◌∙◌, List,
  [], ◌∷◌, ◌++◌, append-nil, append_assoc, none, some, length, take, drop, length-append,
  length-take, length-drop, arith, Option-cases, Bool-cases, ltb, subst, inl, inr, refl, ◌-◌,
}
use f2k.Printbuf.{Allocator, Printbuf, contents, printbuf_memappend_fast}
use f2k.Printbuf.Append.{IsValid, Copied, Copied-trans, memappend_fast-Copied}
use f2k.Escape.{
  sub_size, valid_utf8_char, escaped_char, hexbuf, append_char, append_escaped_loop, append_escaped,
  printbuf_memappend_fast_n16, check_multibyte_characters,
}

-- A byte that starts no character becomes %xx, a special character gets a backslash, and any
-- other character stays.
pub data Escapes : List ℕ → List ℕ → Type 0 where
  done : Escapes [] []
  percent :
      (c : ℕ) {cs out : List ℕ}
      → valid_utf8_char (c ∷ cs) ≡ none
      → Escapes cs out
      → Escapes (c ∷ cs) (b'%' ∷ hexbuf (c / 16) ∷ hexbuf (c % 16) ∷ out)
  special :
      (c n e : ℕ) {cs out : List ℕ}
      → valid_utf8_char (c ∷ cs) ≡ some n
      → escaped_char n c ≡ some e
      → Escapes cs out
      → Escapes (c ∷ cs) (0x5c ∷ e ∷ out)
  plain :
      (c n : ℕ) {cs out : List ℕ}
      → valid_utf8_char (c ∷ cs) ≡ some n
      → escaped_char n c ≡ none
      → Escapes (drop n (c ∷ cs)) out
      → Escapes (c ∷ cs) (take n (c ∷ cs) ++ out)

check_multibyte_le :
    (str : List ℕ) (n : ℕ) → check_multibyte_characters str n ≡ true → n ≤ length str
unfolding check_multibyte_characters
check_multibyte_le str n h = ground arith

-- A character is 1 to 4 bytes, and lies inside the text.
pub valid_utf8_char_bounds :
    (s : List ℕ) (n : ℕ) → valid_utf8_char s ≡ some n → (1 ≤ n) × (n ≤ 4) × (n ≤ length s)
unfolding valid_utf8_char
valid_utf8_char_bounds [] n h = absurd (ground arith)
valid_utf8_char_bounds (b ∷ str) n h =
    ground (arith, check_multibyte_le str 1, check_multibyte_le str 2, check_multibyte_le str 3)

-- The escaped form is as long as the text at least, and at most three times as long.
pub length-Escapes :
    {s out : List ℕ} → Escapes s out → (length s ≤ length out) × (length out ≤ 3 * length s)
length-Escapes done = omega arith
length-Escapes (percent c bad d) = omega (arith, length-Escapes d)
length-Escapes (special c n e ok marked d) = omega (arith, length-Escapes d)
length-Escapes (plain c n {cs} {out} ok stays d) = omega (
  arith,
  length-Escapes d,
  valid_utf8_char_bounds (c ∷ cs) n ok,
  length-append (take n (c ∷ cs)) out,
  length-take n (c ∷ cs),
  length-drop n (c ∷ cs),
)

module _ (heap : Allocator) (never : (old : List ℕ) (n : ℕ) → heap.realloc old n ≢ none) where
  -- Two appends, one after the other.
  two-Copied :
      (p : Printbuf) (a b : List ℕ)
      → IsValid p
      → p.bpos + length a + length b < 2 ^ 60
      → Copied p (a ++ b) (printbuf_memappend_fast heap (printbuf_memappend_fast heap p a) b)
  two-Copied p a b v f =
      let x = memappend_fast-Copied heap p a never v (omega arith) in
      let y =
        memappend_fast-Copied heap (printbuf_memappend_fast heap p a) b never x.valid
          (omega (arith, x.moved)) in
      Copied-trans p (printbuf_memappend_fast heap p a)
        (printbuf_memappend_fast heap (printbuf_memappend_fast heap p a) b) a b x y

  percent-Copied :
      (p : Printbuf) (c : ℕ)
      → IsValid p
      → p.bpos + 3 < 2 ^ 60
      → Copied p
          (b'%' ∷ hexbuf (c / 16) ∷ hexbuf (c % 16) ∷ [])
          (printbuf_memappend_fast_n16 heap (printbuf_memappend_fast heap p (b'%' ∷ [])) c)
  unfolding printbuf_memappend_fast_n16
  percent-Copied p c v f =
      let q = printbuf_memappend_fast heap p (b'%' ∷ []) in
      let x = memappend_fast-Copied heap p (b'%' ∷ []) never v (omega arith) in
      Copied-trans p q (printbuf_memappend_fast_n16 heap q c) (b'%' ∷ [])
        (hexbuf (c / 16) ∷ hexbuf (c % 16) ∷ []) x
        (two-Copied q (hexbuf (c / 16) ∷ []) (hexbuf (c % 16) ∷ []) x.valid
          (omega (arith, x.moved)))

  -- What the loop does to the buffer.
  abbrev Escaped : List ℕ → Printbuf → Printbuf → Type 0
  Escaped s p q =
      (out : List ℕ) × Escapes s out
      × IsValid q
      × (contents q ≡ contents p ++ out)
      × (q.bpos ≡ p.bpos + length out)
      × (get_or p.buf p.bpos 1 ≡ 0 → get_or q.buf q.bpos 1 ≡ 0)
      × (q.size ≤ max p.size (2 * q.bpos + 2048))

  Escaped-step :
      (s t front : List ℕ) (p q r : Printbuf)
      → ((out : List ℕ) → Escapes t out → Escapes s (front ++ out))
      → Copied p front q
      → Escaped t q r
      → Escaped s p r
  Escaped-step s t front p q r grow x (out, d, v, b, m, e, k) = (
    front ++ out,
    grow out d,
    v,
    b ∙ ap (λ k. k ++ out) x.bytes ∙ append_assoc (contents p) front out,
    omega (arith, x.moved, length-append front out),
    (λ h. e x.ends),
    omega (arith, x.moved, x.growth),
  )

  Escaped-nil : (p : Printbuf) → IsValid p → Escaped [] p p
  Escaped-nil p v = ([], done, v, sym (append-nil (contents p)), omega arith, (λ h. h), omega arith)

  drop_all : (i : ℕ) (s : List ℕ) → length s ≤ i → drop i s ≡ []
  drop_all zero [] h = refl
  drop_all (suc i) [] h = refl
  drop_all zero (x ∷ s) h = absurd (omega arith)
  drop_all (suc i) (x ∷ s) h = drop_all i s (omega arith)

  -- What a round of the loop does.
  abbrev Moved : List ℕ → Printbuf → ℕ × Printbuf → Type 0
  Moved s p (n, q) =
      (1 ≤ n)
      × (n ≤ length s)
      × IsValid q
      × (q.bpos + 3 * length (drop n s) ≤ p.bpos + 3 * length s)
      × ((r : Printbuf) → Escaped (drop n s) q r → Escaped s p r)

  append_char-Moved :
      (p : Printbuf) (c : ℕ) (cs : List ℕ)
      → IsValid p
      → p.bpos + 3 * length (c ∷ cs) + 4 < 2 ^ 60
      → Moved (c ∷ cs) p (append_char heap p (c ∷ cs))
  unfolding append_char
  append_char-Moved p c cs v f = elim (Option-cases (valid_utf8_char (c ∷ cs))) [
    | inl bad ↦
        let front = b'%' ∷ hexbuf (c / 16) ∷ hexbuf (c % 16) ∷ [] in
        let q = printbuf_memappend_fast_n16 heap (printbuf_memappend_fast heap p (b'%' ∷ [])) c in
        let x = percent-Copied p c v (omega arith) in
        rw (bad, append_char)
          (
            omega arith,
            omega arith,
            x.valid,
            omega (arith, x.moved),
            (λ r y. Escaped-step (c ∷ cs) cs front p q r (λ out d. Escapes.percent c bad d) x y),
          )
    | inr (n, ok) ↦ elim (Option-cases (escaped_char n c)) [
      | inl stays ↦
          let front = take n (c ∷ cs) in
          let q = printbuf_memappend_fast heap p front in
          let bounds = valid_utf8_char_bounds (c ∷ cs) n ok in
          let x =
            memappend_fast-Copied heap p front never v
              (omega (arith, length-take n (c ∷ cs), bounds)) in
          rw (ok, append_char, stays)
            (
              bounds.0,
              bounds.2,
              x.valid,
              omega (arith, x.moved, length-take n (c ∷ cs), length-drop n (c ∷ cs), bounds),
              (λ r y.
                  Escaped-step (c ∷ cs) (drop n (c ∷ cs)) front p q r
                    (λ out d. Escapes.plain c n ok stays d) x y),
            )
      | inr (e, marked) ↦
          let front = 0x5c ∷ e ∷ [] in
          let q =
            printbuf_memappend_fast heap (printbuf_memappend_fast heap p (0x5c ∷ [])) (e ∷ []) in
          let x = two-Copied p (0x5c ∷ []) (e ∷ []) v (omega arith) in
          rw (ok, append_char, marked)
            (
              omega arith,
              omega arith,
              x.valid,
              omega (arith, x.moved),
              (λ r y.
                  Escaped-step (c ∷ cs) cs front p q r (λ out d. Escapes.special c n e ok marked d)
                    x y),
            )
    ]
  ]

  some-Moved :
      (p : Printbuf) (s : List ℕ)
      → 1 ≤ length s
      → IsValid p
      → p.bpos + 3 * length s + 4 < 2 ^ 60
      → Moved s p (append_char heap p s)
  some-Moved p [] h v f = absurd (omega arith)
  some-Moved p (c ∷ cs) h v f = append_char-Moved p c cs v f

  drop-nil : (k : ℕ) → drop {A = ℕ} k [] ≡ []
  drop-nil zero = refl
  drop-nil (suc k) = refl

  drop-drop : (i n : ℕ) (s : List ℕ) → drop (i + n) s ≡ drop n (drop i s)
  drop-drop zero n s = ap (λ k. drop k s) (omega arith)
  drop-drop (suc i) n [] = drop-nil (suc i + n) ∙ sym (drop-nil n)
  drop-drop (suc i) n (x ∷ s) =
      let k : suc i + n ≡ suc (i + n) = omega arith in ap (λ k. drop k (x ∷ s)) k ∙ drop-drop i n s

  append_escaped_loop-Escaped :
      (fuel : ℕ) (string : List ℕ) (i : ℕ) (p : Printbuf)
      → length string < 2 ^ 32
      → i ≤ length string
      → length string ≤ i + fuel
      → IsValid p
      → p.bpos + 3 * length (drop i string) + 4 < 2 ^ 60
      → (q : Printbuf) × (append_escaped_loop heap fuel string i p ≡ some q)
        × Escaped (drop i string) p q
  unfolding append_escaped_loop
  append_escaped_loop-Escaped zero string i p small le h v f =
      let nothing = drop_all i string (omega arith) in
      (p, ground arith, subst (λ s. Escaped s p p) (sym nothing) (Escaped-nil p v))
  append_escaped_loop-Escaped (suc fuel) string i p small le h v f =
      elim (Bool-cases (ltb i (length string))) [
        | inr over ↦
            let nothing = drop_all i string (ground arith) in
            (p, rw over refl, subst (λ s. Escaped s p p) (sym nothing) (Escaped-nil p v))
        | inl more ↦
            let s = drop i string in
            let r : ℕ × Printbuf = append_char heap p s in
            let len : length s ≡ length string - i = length-drop i string in
            let (least, most, w, room, grow) = some-Moved p s (ground (arith, len)) v f in
            let next : (i + r.0) % 2 ^ 32 ≡ i + r.0 = omega (arith, most, len) in
            let rest : drop (i + r.0) string ≡ drop r.0 s = drop-drop i r.0 string in
            let (q, e, y) =
              append_escaped_loop-Escaped fuel string (i + r.0) r.1 small (omega (arith, most, len))
                (omega (arith, least)) w
                (omega (arith, room, ap (λ (t : List ℕ). length t) rest)) in
            (
              q,
              rw more (ap (λ k. append_escaped_loop heap fuel string k r.1) next ∙ e),
              grow q (subst (λ t. Escaped t r.1 q) rest y),
            )
      ]

  -- The loop ends on a string of less than 2 ^ 32 bytes: the text behind the buffer's is an escaped
  -- form of the string, and the result is its length.
  pub append_escaped-Escapes :
      (p : Printbuf) (string : List ℕ)
      → length string < 2 ^ 32
      → IsValid p
      → p.bpos + 3 * length string + 4 < 2 ^ 60
      → (out : List ℕ) × (q : Printbuf) × Escapes string out
        × (append_escaped heap p string ≡ some (length out, q))
        × (contents q ≡ contents p ++ out)
        × IsValid q
  unfolding append_escaped
  append_escaped-Escapes p string small v f =
      let (q, z, (out, d, w, b, m, e, k)) =
        append_escaped_loop-Escaped (length string) string 0 p small (omega arith) (omega arith) v
          f in
      let moved : sub_size q.bpos p.bpos ≡ length out = omega (arith, m, length-Escapes d) in
      (out, q, d, rw (z, append_escaped, moved) refl, b, w)

  -- The same, of a buffer with a NUL behind its text.
  pub append_escaped-Copied :
      (p : Printbuf) (string : List ℕ)
      → length string < 2 ^ 32
      → IsValid p
      → get_or p.buf p.bpos 1 ≡ 0
      → p.bpos + 3 * length string + 4 < 2 ^ 60
      → (out : List ℕ) × (q : Printbuf) × Escapes string out
        × Copied p out q
        × (append_escaped heap p string ≡ some (length out, q))
  unfolding append_escaped
  append_escaped-Copied p string small v z f =
      let (q, l, (out, d, w, b, m, e, k)) =
        append_escaped_loop-Escaped (length string) string 0 p small (omega arith) (omega arith) v
          f in
      let moved : sub_size q.bpos p.bpos ≡ length out = omega (arith, m, length-Escapes d) in
      (
        out,
        q,
        d,
        record { valid = w; bytes = b; moved = m; ends = e z; growth = k },
        rw (l, append_escaped, moved) refl,
      )
