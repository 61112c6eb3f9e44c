-- ===== src/Mac/Parse.antt =====
-- `parse_mac` reads what `etheraddr_string` writes.
use f2k.Base.{
  ℕ, ◌+◌, ◌*◌, ◌/◌, ◌%◌, ◌^◌, ◌<◌, ◌≡◌, refl, ap, ◌∙◌, [], ◌∷◌, true, arith, ◌==◌, if◌then◌else◌,
}
use f2k.Base.Bytes.{Pointer, IsMemory, big_endian}
use f2k.Mac.{
  ishexchar, hexchar, validmac, parse_mac, hex, hex_byte, etheraddr_loop, etheraddr_string,
}

ishexchar-hex : (d : ℕ) → d < 16 → ishexchar (hex d) ≡ true
unfolding ishexchar hex
ishexchar-hex d h = ground arith

hexchar-hex : (d : ℕ) → d < 16 → hexchar (hex d) ≡ d
unfolding hexchar hex
hexchar-hex d h = ground arith

high_digit : (b : ℕ) → (if b / 16 == 0 then b'0' else hex (b / 16)) ≡ hex (b / 16)
unfolding hex
high_digit b = ground arith

validmac_digits :
    (a b c d e f g h i j k l : ℕ)
    → a < 16
    → b < 16
    → c < 16
    → d < 16
    → e < 16
    → f < 16
    → g < 16
    → h < 16
    → i < 16
    → j < 16
    → k < 16
    → l < 16
    → validmac (
        hex a
        ∷ hex b
        ∷ b':'
        ∷ hex c
        ∷ hex d
        ∷ b':'
        ∷ hex e
        ∷ hex f
        ∷ b':'
        ∷ hex g
        ∷ hex h
        ∷ b':'
        ∷ hex i
        ∷ hex j
        ∷ b':'
        ∷ hex k
        ∷ hex l
        ∷ [])
      ≡ true
unfolding validmac
validmac_digits a b c d e f g h i j k l ha hb hc hd he hf hg hh hi hj hk hl = rw (
  ishexchar-hex a ha,
  ishexchar-hex b hb,
  ishexchar-hex c hc,
  ishexchar-hex d hd,
  ishexchar-hex e he,
  ishexchar-hex f hf,
  ishexchar-hex g hg,
  ishexchar-hex h hh,
  ishexchar-hex i hi,
  ishexchar-hex j hj,
  ishexchar-hex k hk,
  ishexchar-hex l hl,
)

parse_mac_digits :
    (a b c d e f g h i j k l : ℕ)
    → a < 16
    → b < 16
    → c < 16
    → d < 16
    → e < 16
    → f < 16
    → g < 16
    → h < 16
    → i < 16
    → j < 16
    → k < 16
    → l < 16
    → parse_mac (
        hex a
        ∷ hex b
        ∷ b':'
        ∷ hex c
        ∷ hex d
        ∷ b':'
        ∷ hex e
        ∷ hex f
        ∷ b':'
        ∷ hex g
        ∷ hex h
        ∷ b':'
        ∷ hex i
        ∷ hex j
        ∷ b':'
        ∷ hex k
        ∷ hex l
        ∷ [])
      ≡ l
        + k * 2 ^ 4
        + j * 2 ^ 8
        + i * 2 ^ 12
        + h * 2 ^ 16
        + g * 2 ^ 20
        + f * 2 ^ 24
        + e * 2 ^ 28
        + d * 2 ^ 32
        + c * 2 ^ 36
        + b * 2 ^ 40
        + a * 2 ^ 44
unfolding parse_mac
parse_mac_digits a b c d e f g h i j k l ha hb hc hd he hf hg hh hi hj hk hl =
    rw
      (
        validmac_digits a b c d e f g h i j k l ha hb hc hd he hf hg hh hi hj hk hl,
        hexchar-hex a ha,
        hexchar-hex b hb,
        hexchar-hex c hc,
        hexchar-hex d hd,
        hexchar-hex e he,
        hexchar-hex f hf,
        hexchar-hex g hg,
        hexchar-hex h hh,
        hexchar-hex i hi,
        hexchar-hex j hj,
        hexchar-hex k hk,
        hexchar-hex l hl,
      )
      refl

hex_byte_lem : (b : ℕ) → hex_byte b ≡ hex (b / 16) ∷ hex (b % 16) ∷ []
unfolding hex_byte
hex_byte_lem b = rw (high_digit b)

etheraddr_string_lem :
    (ep : Pointer)
    → etheraddr_string ep
      ≡ hex (ep 0 / 16)
        ∷ hex (ep 0 % 16)
        ∷ b':'
        ∷ hex (ep 1 / 16)
        ∷ hex (ep 1 % 16)
        ∷ b':'
        ∷ hex (ep 2 / 16)
        ∷ hex (ep 2 % 16)
        ∷ b':'
        ∷ hex (ep 3 / 16)
        ∷ hex (ep 3 % 16)
        ∷ b':'
        ∷ hex (ep 4 / 16)
        ∷ hex (ep 4 % 16)
        ∷ b':'
        ∷ hex (ep 5 / 16)
        ∷ hex (ep 5 % 16)
        ∷ []
unfolding etheraddr_string etheraddr_loop
etheraddr_string_lem ep = simp hex_byte_lem

digits_value :
    (ep : Pointer)
    → ep 5 % 16
        + ep 5 / 16 * 2 ^ 4
        + ep 4 % 16 * 2 ^ 8
        + ep 4 / 16 * 2 ^ 12
        + ep 3 % 16 * 2 ^ 16
        + ep 3 / 16 * 2 ^ 20
        + ep 2 % 16 * 2 ^ 24
        + ep 2 / 16 * 2 ^ 28
        + ep 1 % 16 * 2 ^ 32
        + ep 1 / 16 * 2 ^ 36
        + ep 0 % 16 * 2 ^ 40
        + ep 0 / 16 * 2 ^ 44
      ≡ big_endian 6 ep
unfolding big_endian
digits_value ep = omega arith

-- The text of six bytes reads back as their number in network order.
pub parse_mac-etheraddr_string :
    (ep : Pointer) → IsMemory ep → parse_mac (etheraddr_string ep) ≡ big_endian 6 ep
parse_mac-etheraddr_string ep h =
    ap parse_mac (etheraddr_string_lem ep)
    ∙ parse_mac_digits (ep 0 / 16) (ep 0 % 16) (ep 1 / 16) (ep 1 % 16) (ep 2 / 16) (ep 2 % 16)
        (ep 3 / 16) (ep 3 % 16) (ep 4 / 16) (ep 4 % 16) (ep 5 / 16) (ep 5 % 16) (omega (arith, h 0))
        (omega arith) (omega (arith, h 1)) (omega arith) (omega (arith, h 2)) (omega arith)
        (omega (arith, h 3)) (omega arith) (omega (arith, h 4)) (omega arith) (omega (arith, h 5))
        (omega arith)
    ∙ digits_value ep
