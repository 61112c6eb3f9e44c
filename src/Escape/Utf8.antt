-- ===== src/Escape/Utf8.antt =====
-- `valid_utf8_char` against the byte ranges of UTF-8, with the masks read as arithmetic.
use f2k.Base.{
  ℕ, zero, suc, ◌≡◌, refl, ◌∙◌, Bool, true, false, ◌&&◌, List, [], ◌∷◌, ◌++◌, Option, none, some,
  arith, take, drop, All, ltb, leb, ◌==◌, if◌then◌else◌, bit_and, Bool-cases, Option-cases, inl,
  inr,
}
use f2k.Base.Bytes.{agree, mask_one, IsByte, checked}
use f2k.Escape.{continuation_bytes, check_multibyte_characters, valid_utf8_char}

-- 10xxxxxx
abbrev pub trail : ℕ → Bool
trail b = leb 0x80 b && ltb b 0xc0

mask_trail : (b : ℕ) → IsByte b → (bit_and b 0xc0 == 0x80) ≡ trail b
unfolding checked
mask_trail = agree _ _ refl

mask_two : (b : ℕ) → IsByte b → (bit_and b 0xe0 == 0xc0) ≡ (leb 0xc0 b && ltb b 0xe0)
unfolding checked
mask_two = agree _ _ refl

mask_three : (b : ℕ) → IsByte b → (bit_and b 0xf0 == 0xe0) ≡ (leb 0xe0 b && ltb b 0xf0)
unfolding checked
mask_three = agree _ _ refl

mask_four : (b : ℕ) → IsByte b → (bit_and b 0xf8 == 0xf0) ≡ (leb 0xf0 b && ltb b 0xf8)
unfolding checked
mask_four = agree _ _ refl

-- How many bytes follow a leading byte. Surrogates, overlong forms of three and four bytes and
-- numbers above 0x10ffff are not told apart.
unfoldable pub followers : ℕ → Option ℕ
followers b =
    if ltb b 0x80
    then some 0
    else if ltb b 0xc2
    then none
    else if ltb b 0xe0
    then some 1
    else if ltb b 0xf0
    then some 2
    else if ltb b 0xf8
    then some 3
    else none

-- Every leading byte has the trailing bytes that it wants, and no others stand, behind `k` trailing
-- bytes: whole characters, as `followers` counts them.
unfoldable pub utf8_from : ℕ → List ℕ → Bool
utf8_from zero [] = true
utf8_from (suc k) [] = false
utf8_from zero (b ∷ s) = elim (followers b) [ none ↦ false | some k ↦ utf8_from k s ]
utf8_from (suc k) (b ∷ s) = trail b && utf8_from k s

-- The first `k` bytes are there, and are all trailing bytes.
unfoldable pub trails : ℕ → List ℕ → Bool
trails zero s = true
trails (suc k) [] = false
trails (suc k) (b ∷ s) = trail b && trails k s

check-trails :
    (str : List ℕ) (k : ℕ) → All IsByte str → check_multibyte_characters str k ≡ trails k str
unfolding check_multibyte_characters continuation_bytes trails
check-trails [] zero h = refl
check-trails [] (suc k) h = ground arith
check-trails (b ∷ str) zero h = ground arith
check-trails (b ∷ str) (suc k) h = ground (arith, mask_trail b h.0, check-trails str k h.1)

-- What `valid_utf8_char` computes: the leading byte's class, and its trailing bytes.
pub valid_utf8_char_lem :
    (b : ℕ) (str : List ℕ)
    → All IsByte (b ∷ str)
    → valid_utf8_char (b ∷ str)
      ≡ (elim (followers b) [ none ↦ none | some k ↦ if trails k str then some (suc k) else none ])
unfolding valid_utf8_char followers trails
valid_utf8_char_lem b str h = ground (
  arith,
  mask_one b h.0,
  mask_two b h.0,
  mask_three b h.0,
  mask_four b h.0,
  check-trails str 1 h.1,
  check-trails str 2 h.1,
  check-trails str 3 h.1,
)

pub valid_utf8_char_inv :
    (b : ℕ) (str : List ℕ) (n : ℕ)
    → All IsByte (b ∷ str)
    → valid_utf8_char (b ∷ str) ≡ some n
    → (k : ℕ) × (n ≡ suc k) × (followers b ≡ some k) × (trails k str ≡ true)
valid_utf8_char_inv b str n h ok = elim (Option-cases (followers b)) [
  | inl bad ↦ absurd (ground (arith, valid_utf8_char_lem b str h))
  | inr (k, e) ↦ elim (Bool-cases (trails k str)) [
    | inl t ↦ (k, ground (arith, valid_utf8_char_lem b str h), e, t)
    | inr f ↦ absurd (ground (arith, valid_utf8_char_lem b str h))
  ]
]

utf8_from-trails :
    (k : ℕ) (s : List ℕ)
    → utf8_from k s ≡ true
    → (trails k s ≡ true) × (utf8_from 0 (drop k s) ≡ true)
unfolding utf8_from trails
utf8_from-trails zero s w = (refl, w)
utf8_from-trails (suc k) [] w = absurd (ground arith)
utf8_from-trails (suc k) (b ∷ s) w = ground (arith, utf8_from-trails k s)

-- A leading byte with the trailing bytes that it wants is a character.
pub utf8_from-valid :
    (b : ℕ) (s : List ℕ)
    → All IsByte (b ∷ s)
    → utf8_from 0 (b ∷ s) ≡ true
    → (k : ℕ) × (valid_utf8_char (b ∷ s) ≡ some (suc k)) × (utf8_from 0 (drop k s) ≡ true)
unfolding utf8_from
utf8_from-valid b s h u = elim (Option-cases (followers b)) [
  | inl bad ↦ absurd (ground arith)
  | inr (k, e) ↦
      let (t, r) = utf8_from-trails k s (ground arith) in
      (k, valid_utf8_char_lem b s h ∙ rw (e, t), r)
]

-- Whole characters in front of a text leave its own characters to be read.
pub utf8_from-append :
    (k : ℕ) (s rest : List ℕ)
    → trails k s ≡ true
    → utf8_from k (take k s ++ rest) ≡ utf8_from 0 rest
unfolding utf8_from trails
utf8_from-append zero s rest t = refl
utf8_from-append (suc k) [] rest t = absurd (ground arith)
utf8_from-append (suc k) (b ∷ s) rest t = ground (arith, utf8_from-append k s rest)
