-- ===== src/Number/Dotted.antt =====
-- `_intoaV4` prints an address that can be read back.
use f2k.Base.{
  zero, suc, length-append, ◌≤◌, length, ℕ, ◌+◌, ◌-◌, ◌*◌, ◌/◌, ◌%◌, ◌^◌, ◌<◌, ◌≡◌, ◌∙◌, List, [],
  ◌∷◌, ◌++◌, arith, ◌==◌, if◌then◌else◌,
}
use f2k.Number.{behind_first, byte_text, intoa_loop, intoa_v4}

-- A reader of dotted addresses: `high` is the number of the bytes read, `byte` the byte being read.
unfoldable pub read_dotted : ℕ → ℕ → List ℕ → ℕ
read_dotted high byte [] = high * 256 + byte
read_dotted high byte (c ∷ cs) =
    read_dotted (if c == b'.' then high * 256 + byte else high)
      (if c == b'.' then 0 else byte * 10 + (c - b'0')) cs

read_dotted-byte_text :
    (high b : ℕ) (rest : List ℕ)
    → b < 256
    → read_dotted high 0 (byte_text b ++ rest) ≡ read_dotted high b rest
unfolding read_dotted byte_text
read_dotted-byte_text high b rest h = ground arith

-- The text ends in `.` and the reader of the byte in front goes on with the next one.
next_byte :
    (high byte b : ℕ) (rest : List ℕ)
    → b < 256
    → read_dotted high byte (b'.' ∷ (byte_text b ++ rest)) ≡ read_dotted (high * 256 + byte) b rest
unfolding read_dotted
next_byte high byte b rest h = read_dotted-byte_text (high * 256 + byte) b rest h

-- The dotted form of a 32-bit address reads back as the address.
pub read_dotted-intoa_v4 : (addr : ℕ) → addr < 2 ^ 32 → read_dotted 0 0 (intoa_v4 addr) ≡ addr
unfolding intoa_v4 intoa_loop
read_dotted-intoa_v4 addr h =
    let b0 = addr % 256 in
    let b1 = addr / 256 % 256 in
    let b2 = addr / 256 / 256 % 256 in
    let b3 = addr / 256 / 256 / 256 % 256 in
    read_dotted-byte_text 0 b3 _ (omega arith)
    ∙ next_byte 0 b3 b2 _ (omega arith)
    ∙ next_byte (0 * 256 + b3) b2 b1 _ (omega arith)
    ∙ next_byte ((0 * 256 + b3) * 256 + b2) b1 b0 [] (omega arith)
    ∙ unfold read_dotted in omega arith

byte_text-le : (byte : ℕ) → length (byte_text byte) ≤ 3
unfolding byte_text
byte_text-le byte = ground arith

intoa_loop-le : (n addr : ℕ) (text : List ℕ) → length (intoa_loop n addr text) ≤ 4 * n + length text
unfolding intoa_loop
intoa_loop-le zero addr text = omega arith
intoa_loop-le (suc n) addr text = omega (
  arith,
  intoa_loop-le n (addr / 256) (b'.' ∷ (byte_text (addr % 256) ++ text)),
  length-append (byte_text (addr % 256)) text,
  byte_text-le (addr % 256),
)

behind_first-le : (text : List ℕ) (n : ℕ) → length text ≤ suc n → length (behind_first text) ≤ n
behind_first-le [] n h = omega arith
behind_first-le (c ∷ cs) n h = omega arith

-- An address has at most 15 characters.
pub length-intoa_v4 : (addr : ℕ) → length (intoa_v4 addr) ≤ 15
unfolding intoa_v4
length-intoa_v4 addr = behind_first-le (intoa_loop 4 addr []) 15 (intoa_loop-le 4 addr [])
