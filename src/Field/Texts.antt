-- ===== src/Field/Texts.antt =====
-- The texts that the printing functions show, and the calls that append them.
use f2k.Number.{to_int64, itoa10}
use f2k.Escape.{escaped_char, valid_utf8_char, hexbuf}
use f2k.Escape.Relation.{valid_utf8_char_bounds, Escapes, done, percent, special, plain}
use f2k.Base.{
  ℕ, zero, suc, ◌+◌, ◌*◌, ◌/◌, ◌%◌, ◌≤◌, ◌≡◌, refl, ap, false, Option, none, some, List, [], ◌∷◌,
  ◌++◌, arith, ◌==◌, if◌then◌else◌, length, take, drop, length-drop,
}
use f2k.Base.Bytes.{Pointer, advance}

-- The decimal text of a 64-bit number.
abbrev text_or_nil : Option (List ℕ) → List ℕ
text_or_nil none = []
text_or_nil (some text) = text

pub number_text : ℕ → List ℕ
number_text value = text_or_nil (itoa10 (to_int64 value))

pub number_text-eq :
    (value : ℕ) (t : List ℕ) → itoa10 (to_int64 value) ≡ some t → number_text value ≡ t
unfolding number_text
number_text-eq value t e = ap text_or_nil e

abbrev pub hex_pair : ℕ → List ℕ
hex_pair b = hexbuf (b / 16) ∷ hexbuf (b % 16) ∷ []

-- `n` bytes in hexadecimal, between colons.
unfoldable pub mac_text : ℕ → Pointer → List ℕ
mac_text zero buffer = []
mac_text (suc n) buffer =
    hex_pair (buffer 0) ++ ((if n == 0 then [] else b':' ∷ []) ++ mac_text n (advance buffer 1))

-- `n` groups of two bytes in hexadecimal, between colons.
unfoldable pub ipv6_text : ℕ → Pointer → List ℕ
ipv6_text zero buffer = []
ipv6_text (suc n) buffer =
    hex_pair (buffer 0)
    ++ (hex_pair (buffer 1)
        ++ ((if n == 0 then [] else b':' ∷ []) ++ ipv6_text n (advance buffer 2)))

-- A colon and a byte in hexadecimal, `n` times.
unfoldable pub tail_text : ℕ → Pointer → List ℕ
tail_text zero buffer = []
tail_text (suc n) buffer = b':' ∷ (hex_pair (buffer 0) ++ tail_text n (advance buffer 1))

-- The escaped form of a text, as a function: a byte that starts no character becomes %xx, a
-- special one gets a backslash.
unfoldable pub escaped_text : ℕ → List ℕ → List ℕ
escaped_text zero s = []
escaped_text (suc fuel) [] = []
escaped_text (suc fuel) (c ∷ cs) = elim (valid_utf8_char (c ∷ cs)) [
  | none ↦ b'%' ∷ (hex_pair c ++ escaped_text fuel cs)
  | some n ↦ elim (escaped_char n c) [
    | some e ↦ 0x5c ∷ e ∷ escaped_text fuel cs
    | none ↦ take n (c ∷ cs) ++ escaped_text fuel (drop n (c ∷ cs))
  ]
]

abbrev pub escape : List ℕ → List ℕ
escape s = escaped_text (length s) s

pub Escapes-text :
    (fuel : ℕ) (s out : List ℕ) → length s ≤ fuel → Escapes s out → escaped_text fuel s ≡ out
unfolding escaped_text
Escapes-text zero [] _ h done = refl
Escapes-text (suc fuel) [] _ h done = refl
Escapes-text zero (c ∷ cs) out h d = absurd (omega arith)
Escapes-text (suc fuel) _ _ h (percent c {cs} {out} bad d) =
    rw (bad, escaped_text, Escapes-text fuel cs out (omega arith) d) refl
Escapes-text (suc fuel) _ _ h (special c n e {cs} {out} ok marked d) =
    rw (ok, escaped_text, marked, Escapes-text fuel cs out (omega arith) d) refl
Escapes-text (suc fuel) _ _ h (plain c n {cs} {out} ok stays d) =
    rw
      (
        ok,
        escaped_text,
        stays,
        Escapes-text fuel (drop n (c ∷ cs)) out
            (omega (arith, length-drop n (c ∷ cs), valid_utf8_char_bounds (c ∷ cs) n ok)) d,
      )
      refl

pub suc-==-zero : (n : ℕ) → (suc n == 0) ≡ false
suc-==-zero n = ground arith

pub length-mac_text : (n : ℕ) (buffer : Pointer) → length (mac_text (suc n) buffer) ≡ 3 * n + 2
unfolding mac_text
length-mac_text zero buffer = refl
length-mac_text (suc n) buffer =
    rw (suc-==-zero n) (omega (arith, length-mac_text n (advance buffer 1)))

pub length-ipv6_text : (n : ℕ) (buffer : Pointer) → length (ipv6_text (suc n) buffer) ≡ 5 * n + 4
unfolding ipv6_text
length-ipv6_text zero buffer = refl
length-ipv6_text (suc n) buffer =
    rw (suc-==-zero n) (omega (arith, length-ipv6_text n (advance buffer 2)))
