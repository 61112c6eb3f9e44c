-- ===== src/Number.antt =====
-- Numbers on the wire and in print: `net2number` and `_intoaV4` of src/util.c, `_itoa10` and
-- `printbuf_memappend_fast_n10` of src/export.c.
pub mod Wire
pub mod Decimal
pub mod Print
pub mod Dotted
mod Tests
use f2k.Base.{
  ℕ, zero, suc, ◌+◌, ◌-◌, ◌*◌, ◌/◌, ◌%◌, ◌^◌, Bool, true, false, List, [], ◌∷◌, ◌++◌, Option, none,
  some, length, ltb, ◌==◌, if◌then◌else◌,
}
use f2k.Base.Bytes.{Pointer, advance, big_endian}
use f2k.Printbuf.{Allocator, Printbuf, printbuf_memappend_fast}
use Prim.Native.Nat.{bit_or}

-- `real_field_len` is a `uint16_t`; the callers' `size_t` is cut to it.
unfoldable pub net2number : Pointer → ℕ → ℕ
net2number buffer real_field_len =
    let len = real_field_len % 2 ^ 16 in
    if len == 1
    then buffer 0
    else if len == 2
    then big_endian 2 buffer
    else if len == 4
    then big_endian 4 buffer
    else if len == 6
    then bit_or (big_endian 2 buffer * 2 ^ 32) (big_endian 4 (advance buffer 2))
    else if len == 8
    then big_endian 8 buffer
    else 0

-- An `int64_t`; `negsuc n` is -(n + 1).
pub data ℤ : Type 0 where
  pos : ℕ → ℤ
  negsuc : ℕ → ℤ

-- The conversion of a `uint64_t` to `int64_t`.
unfoldable pub to_int64 : ℕ → ℤ
to_int64 w = if ltb w (2 ^ 63) then pos w else negsuc (2 ^ 64 - w - 1)

-- -n
abbrev pub negative : ℕ → ℤ
negative zero = pos 0
negative (suc n) = negsuc n

-- `value / 10` rounds towards zero.
unfoldable pub quot_ten : ℤ → ℤ
quot_ten (pos n) = pos (n / 10)
quot_ten (negsuc n) = negative ((n + 1) / 10)

-- `"zyxwvutsrqponmlkjihgfedcba9876543210123456789abcdefghijklmnopqrstuvwxyz"`: the digits fall to
-- '0' at 35 and rise again, and the letters are their continuation.
unfoldable pub digit_table : ℕ → ℕ
digit_table i =
    if ltb i 26
    then b'z' - i
    else if ltb i 35
    then b'9' - (i - 26)
    else if ltb i 45
    then b'0' + (i - 35)
    else b'a' + (i - 45)

-- `35 + (tmp_value - value * 10)`, where `value` is `tmp_value / 10`.
unfoldable pub digit_index : ℤ → ℕ
digit_index (pos n) = 35 + n % 10
digit_index (negsuc n) = 35 - (n + 1) % 10

abbrev pub is_zero : ℤ → Bool
is_zero (pos zero) = true
is_zero _ = false

abbrev pub is_negative : ℤ → Bool
is_negative (pos n) = false
is_negative (negsuc n) = true

-- The `do` loop, on the text that stands behind `ptr`: the last `tmp_value` is the leading digit,
-- with the sign of the number. `none` means that the fuel ran out.
unfoldable pub itoa10_loop : ℕ → ℤ → List ℕ → Option (List ℕ)
itoa10_loop zero value text = none
itoa10_loop (suc fuel) value text =
    let digits = digit_table (digit_index value) ∷ text in
    let more = itoa10_loop fuel (quot_ten value) digits in
    if is_zero (quot_ten value)
    then some (if is_negative value then b'-' ∷ digits else digits)
    else more

-- An `int64_t` has 19 digits at most, so the text fits the 64 bytes of the caller's buffer.
unfoldable pub itoa10 : ℤ → Option (List ℕ)
itoa10 value = itoa10_loop 20 value []

module _ (heap : Allocator) where
  -- `none`: no such text, which `Decimal` rules out.
  unfoldable pub printbuf_memappend_fast_n10 : Printbuf → ℕ → Option (ℕ × Printbuf)
  printbuf_memappend_fast_n10 p value = elim (itoa10 (to_int64 value)) [
    | none ↦ none
    | some text ↦ some (length text, printbuf_memappend_fast heap p text)
  ]

-- A byte of the address, without leading zeros.
unfoldable pub byte_text : ℕ → List ℕ
byte_text byte =
    let tens = byte / 10 in
    let hundreds = tens / 10 in
    let units = (byte % 10 + b'0') ∷ [] in
    if ltb 0 tens
    then (if ltb 0 hundreds
        then (hundreds + b'0') ∷ (tens % 10 + b'0') ∷ units
        else (tens % 10 + b'0') ∷ units)
    else units

-- The loop of `_intoaV4`, which writes from the end: `n` bytes are left of `addr`.
unfoldable pub intoa_loop : ℕ → ℕ → List ℕ → List ℕ
intoa_loop zero addr text = text
intoa_loop (suc n) addr text = intoa_loop n (addr / 256) (b'.' ∷ (byte_text (addr % 256) ++ text))

-- `cp + 1`
abbrev pub behind_first : List ℕ → List ℕ
behind_first [] = []
behind_first (c ∷ cs) = cs

-- The result starts behind the last dot written.
unfoldable pub intoa_v4 : ℕ → List ℕ
intoa_v4 addr = behind_first (intoa_loop 4 addr [])
