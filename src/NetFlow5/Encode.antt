-- ===== src/NetFlow5/Encode.antt =====
-- Packets of NetFlow 5 as exporters send them: each field is read from where it was written.
use f2k.Base.{
  ℕ, zero, suc, ◌+◌, ◌-◌, ◌/◌, ◌%◌, ◌^◌, ◌≤◌, ◌<◌, ◌≡◌, ◌≢◌, refl, sym, ap, subst, ◌∙◌, inl, inr,
  Bool, true, false, ◌&&◌, Option, none, some, List, [], ◌∷◌, ◌++◌, append_assoc, arith, ltb, ◌==◌,
  if◌then◌else◌, Bool-cases, ==_iff, length, All, length-append, get_or-append,
}
use f2k.Base.Bytes.{Pointer, advance, pointer_to, big_endian}
use f2k.Template.Encode.{Holds, Holds-append}

-- A number of `w` bytes in network order.
unfoldable pub encode_number : ℕ → ℕ → List ℕ
encode_number zero x = []
encode_number (suc w) x = encode_number w (x / 256) ++ (x % 256 ∷ [])

-- Numbers with their widths, one behind the other.
unfoldable pub encode_numbers : List (ℕ × ℕ) → List ℕ
encode_numbers [] = []
encode_numbers ((w, x) ∷ ns) = encode_number w x ++ encode_numbers ns

-- The number at an offset, with its width.
unfoldable pub number_at : ℕ → List (ℕ × ℕ) → Option (ℕ × ℕ)
number_at offset [] = none
number_at offset ((w, x) ∷ ns) =
    let rest = number_at (offset - w) ns in
    if offset == 0 then some (w, x) else if ltb offset w then none else rest

unfoldable pub are_positive : List (ℕ × ℕ) → Bool
are_positive [] = true
are_positive ((w, x) ∷ ns) = ltb 0 w && are_positive ns

unfoldable pub size_of : List (ℕ × ℕ) → ℕ
size_of [] = 0
size_of ((w, x) ∷ ns) = w + size_of ns

none-ne-some {ℓ} : {A : Type ℓ} {x : A} → none ≢ some x
none-ne-some e = ground arith

length-encode_number : (w x : ℕ) → length (encode_number w x) ≡ w
unfolding encode_number
length-encode_number zero x = refl
length-encode_number (suc w) x = omega (
  arith,
  length-append (encode_number w (x / 256)) (x % 256 ∷ []),
  length-encode_number w (x / 256),
)

Holds-number :
    (p : Pointer) (w i x : ℕ)
    → x < 256 ^ w
    → Holds p i (encode_number w x)
    → big_endian w (advance p i) ≡ x
unfolding encode_number big_endian
Holds-number p zero i x small h = omega (arith, small)
Holds-number p (suc w) i x small h =
    let (front, last) = Holds-append p i (encode_number w (x / 256)) (x % 256 ∷ []) h in
    let top = Holds-number p w i (x / 256) (omega (arith, small)) front in
    let low : p (i + w) ≡ x % 256 =
      ap (λ k. p (i + k)) (sym (length-encode_number w (x / 256))) ∙ last.0 in
    omega (arith, top, low)

abbrev pub IsNumber : ℕ × ℕ → Type 0
IsNumber n = n.1 < 256 ^ n.0

abbrev width_of : Option (ℕ × ℕ) → ℕ
width_of none = 0
width_of (some (w, x)) = w

abbrev number_of : Option (ℕ × ℕ) → ℕ
number_of none = 0
number_of (some (w, x)) = x

-- What is written at an offset is read there.
pub Holds-number_at :
    (p : Pointer) (i offset w x : ℕ) (ns : List (ℕ × ℕ))
    → All IsNumber ns
    → Holds p i (encode_numbers ns)
    → number_at offset ns ≡ some (w, x)
    → big_endian w (advance p (i + offset)) ≡ x
unfolding encode_numbers number_at
Holds-number_at p i offset w x [] all h e = absurd (ground arith)
Holds-number_at p i offset w x ((v, y) ∷ ns) (n, all) h e =
    let (front, rest) = Holds-append p i (encode_number v y) (encode_numbers ns) h in
    elim (Bool-cases (offset == 0)) [
      | inl z ↦
          let here : number_at offset ((v, y) ∷ ns) ≡ some (v, y) = rw (z) refl in
          let same = sym here ∙ e in
          let start : i + offset ≡ i = omega (arith, (==_iff offset 0).0 z) in
          ap (λ k. big_endian w (advance p k)) start
          ∙ ap (λ k. big_endian k (advance p i)) (sym (ap width_of same))
          ∙ Holds-number p v i y n front
          ∙ ap number_of same
      | inr z ↦ elim (Bool-cases (ltb offset v)) [
        | inl inside ↦
            let gone : number_at offset ((v, y) ∷ ns) ≡ none = rw (z, inside) refl in
            absurd (none-ne-some (sym gone ∙ e))
        | inr behind ↦
            let later : number_at (offset - v) ns ≡ some (w, x) = rw (sym e, z, behind) refl in
            let place : i + offset ≡ i + length (encode_number v y) + (offset - v) =
              ground (arith, length-encode_number v y) in
            ap (λ k. big_endian w (advance p k)) place
            ∙ Holds-number_at p (i + length (encode_number v y)) (offset - v) w x ns all rest later
      ]
    ]

-- Numbers in front move an offset.
pub number_at-append :
    (offset : ℕ) (ns ms : List (ℕ × ℕ))
    → are_positive ns ≡ true
    → number_at (size_of ns + offset) (ns ++ ms) ≡ number_at offset ms
unfolding number_at size_of are_positive
number_at-append offset [] ms all = ap (λ k. number_at k ms) (omega arith)
number_at-append offset ((w, x) ∷ ns) ms all =
    let w_positive : 1 ≤ w = ground arith in
    let rest_positive : are_positive ns ≡ true = ground arith in
    let some_left : (w + size_of ns + offset == 0) ≡ false = ground arith in
    let behind : ltb (w + size_of ns + offset) w ≡ false = ground arith in
    let left : w + size_of ns + offset - w ≡ size_of ns + offset = omega arith in
    rw (some_left, behind, left) (number_at-append offset ns ms rest_positive)

Holds-behind : (i : ℕ) (xs ys : List ℕ) → i ≡ length xs → Holds (pointer_to (xs ++ ys)) i ys
Holds-behind i xs [] e = tt
Holds-behind i xs (y ∷ ys) e =
    let longer : suc i ≡ length (xs ++ (y ∷ [])) = omega (arith, e, length-append xs (y ∷ [])) in
    (
      get_or-append i xs y ys 0 e,
      subst (λ l. Holds (pointer_to l) (suc i) ys) (append_assoc xs (y ∷ []) ys)
          (Holds-behind (suc i) (xs ++ (y ∷ [])) ys longer),
    )

-- Memory that holds a list, read from its start.
pub pointer_to-Holds : (bytes : List ℕ) → Holds (pointer_to bytes) 0 bytes
pointer_to-Holds bytes = Holds-behind 0 [] bytes refl
