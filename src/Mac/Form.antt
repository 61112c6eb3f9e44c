-- ===== src/Mac/Form.antt =====
-- The form of an address as text, and its number.
use f2k.Base.{
  ℕ, zero, suc, ◌+◌, ◌*◌, ◌<◌, ◌≡◌, refl, ◌∙◌, inl, inr, true, Option, none, some, List, [], ◌∷◌,
  arith, ◌==◌, if◌then◌else◌, Bool-cases, Option-cases, length,
}
use f2k.Escape.{memchr}
use f2k.Mac.{ishexchar, hexchar}

-- "0123456789abcdef" and "0123456789ABCDEF"
abbrev pub lower_digits : List ℕ
lower_digits =
    b'0' ∷ b'1' ∷ b'2' ∷ b'3' ∷ b'4' ∷ b'5' ∷ b'6' ∷ b'7' ∷ b'8' ∷ b'9' ∷ b'a' ∷ b'b' ∷ b'c' ∷ b'd'
    ∷ b'e' ∷ b'f' ∷ []

abbrev pub upper_digits : List ℕ
upper_digits =
    b'0' ∷ b'1' ∷ b'2' ∷ b'3' ∷ b'4' ∷ b'5' ∷ b'6' ∷ b'7' ∷ b'8' ∷ b'9' ∷ b'A' ∷ b'B' ∷ b'C' ∷ b'D'
    ∷ b'E' ∷ b'F' ∷ []

-- The value of a hexadecimal digit of either case is its place among the digits.
unfoldable pub hex_value : ℕ → Option ℕ
hex_value c = elim (memchr lower_digits c) [ some d ↦ some d | none ↦ memchr upper_digits c ]

-- The number read so far, with a byte of two digits behind it.
unfoldable pub with_byte : ℕ → ℕ → ℕ → Option ℕ
with_byte acc a b = elim (hex_value a) [
  | none ↦ none
  | some x ↦ elim (hex_value b) [ none ↦ none | some y ↦ some (acc * 256 + (x * 16 + y)) ]
]

-- The number of an address: bytes of two digits, `n` of them with a colon behind, and the last one.
unfoldable pub address_value : ℕ → ℕ → List ℕ → Option ℕ
address_value n acc [] = none
address_value n acc (a ∷ []) = none
address_value zero acc (a ∷ b ∷ []) = with_byte acc a b
address_value zero acc (a ∷ b ∷ c ∷ rest) = none
address_value (suc n) acc (a ∷ b ∷ []) = none
address_value (suc n) acc (a ∷ b ∷ c ∷ rest) = elim (with_byte acc a b) [
  | none ↦ none
  | some v ↦ let value = address_value n v rest in if c == b':' then value else none
]

hex_value_lem : (c : ℕ) → hex_value c ≡ (if ishexchar c then some (hexchar c) else none)
unfolding hex_value memchr ishexchar hexchar
hex_value_lem c = ground arith

pub hexchar-lt : (x : ℕ) → ishexchar x ≡ true → hexchar x < 16
unfolding ishexchar hexchar
hexchar-lt x h = ground arith

with_byte_hex :
    (acc a b : ℕ)
    → ishexchar a ≡ true
    → ishexchar b ≡ true
    → with_byte acc a b ≡ some (acc * 256 + (hexchar a * 16 + hexchar b))
unfolding with_byte
with_byte_hex acc a b ha hb =
    let first : hex_value a ≡ some (hexchar a) = hex_value_lem a ∙ rw ha refl in
    let second : hex_value b ≡ some (hexchar b) = hex_value_lem b ∙ rw hb refl in
    rw (first, with_byte, second) refl

with_byte_inv :
    (acc a b v : ℕ) → with_byte acc a b ≡ some v → (ishexchar a ≡ true) × (ishexchar b ≡ true)
unfolding with_byte
with_byte_inv acc a b v e = ground (arith, hex_value_lem a, hex_value_lem b)

pub step_value :
    (n acc a b c : ℕ) (rest : List ℕ)
    → ishexchar a ≡ true
    → ishexchar b ≡ true
    → (c == b':') ≡ true
    → address_value (suc n) acc (a ∷ b ∷ c ∷ rest)
      ≡ address_value n (acc * 256 + (hexchar a * 16 + hexchar b)) rest
unfolding address_value
step_value n acc a b c rest ha hb hc = rw (with_byte_hex acc a b ha hb, address_value, hc) refl

pub step_inv :
    (n acc a b c v : ℕ) (rest : List ℕ)
    → address_value (suc n) acc (a ∷ b ∷ c ∷ rest) ≡ some v
    → (ishexchar a ≡ true)
      × (ishexchar b ≡ true)
      × (c == b':' ≡ true)
      × (acc1 : ℕ) × (address_value n acc1 rest ≡ some v)
unfolding address_value
step_inv n acc a b c v rest e = elim (Option-cases (with_byte acc a b)) [
  | inl bad ↦ absurd (ground arith)
  | inr (w, good) ↦ elim (Bool-cases (c == b':')) [
    | inl colon ↦
        ((with_byte_inv acc a b w good).0, (with_byte_inv acc a b w good).1, colon, w, ground arith)
    | inr other ↦ absurd (ground arith)
  ]
]

pub length-address_value :
    (n acc v : ℕ) (text : List ℕ) → address_value n acc text ≡ some v → length text ≡ 3 * n + 2
length-address_value n acc v [] e = absurd (unfold address_value in ground arith)
length-address_value n acc v (a ∷ []) e = absurd (unfold address_value in ground arith)
length-address_value zero acc v (a ∷ b ∷ []) e = refl
length-address_value zero acc v (a ∷ b ∷ c ∷ rest) e = absurd (unfold address_value in ground arith)
length-address_value (suc n) acc v (a ∷ b ∷ []) e = absurd (unfold address_value in ground arith)
length-address_value (suc n) acc v (a ∷ b ∷ c ∷ rest) e =
    let (_, _, _, acc1, e1) = step_inv n acc a b c v rest e in
    omega (arith, length-address_value n acc1 v rest e1)

pub last_inv :
    (acc a b v : ℕ)
    → address_value 0 acc (a ∷ b ∷ []) ≡ some v
    → (ishexchar a ≡ true) × (ishexchar b ≡ true)
unfolding address_value
last_inv acc a b v e = with_byte_inv acc a b v e

pub last_value :
    (acc a b : ℕ)
    → ishexchar a ≡ true
    → ishexchar b ≡ true
    → address_value 0 acc (a ∷ b ∷ []) ≡ some (acc * 256 + (hexchar a * 16 + hexchar b))
unfolding address_value
last_value acc a b ha hb = with_byte_hex acc a b ha hb
