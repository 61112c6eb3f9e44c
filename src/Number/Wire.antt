-- ===== src/Number/Wire.antt =====
-- `net2number` reads network order.
use f2k.Base.{ℕ, ◌+◌, ◌*◌, ◌^◌, ◌<◌, ◌≡◌, Bool, ◌||◌, arith, ◌==◌, if◌then◌else◌}
use f2k.Base.Bytes.{Pointer, IsMemory, advance, big_endian, big_endian-lt}
use f2k.Base.Bits.{bit_or-eq-add}
use f2k.Number.{net2number}

-- The sizes that are read.
unfoldable pub is_wire_size : ℕ → Bool
is_wire_size k = k == 1 || k == 2 || k == 4 || k == 6 || k == 8

big_endian_six :
    (p : Pointer) → big_endian 6 p ≡ big_endian 2 p * 2 ^ 32 + big_endian 4 (advance p 2)
unfolding big_endian
big_endian_six p = omega arith

big_endian_one : (p : Pointer) → big_endian 1 p ≡ p 0
unfolding big_endian
big_endian_one p = omega arith

-- A field of 1, 2, 4, 6 or 8 bytes is read as the number in network order; a field of any other
-- size below 2 ^ 16 is read as 0.
pub net2number_lem :
    (p : Pointer) (k : ℕ)
    → IsMemory p
    → k < 2 ^ 16
    → net2number p k ≡ (if is_wire_size k then big_endian k p else 0)
unfolding net2number is_wire_size
net2number_lem p k h small =
    let six =
      bit_or-eq-add 32 (big_endian 2 p) (big_endian 4 (advance p 2))
        (omega (arith, big_endian-lt 4 (advance p 2) (λ i. h (2 + i)))) in
    ground (arith, six, big_endian_six p, big_endian_one p)

-- What is read has at most 64 bits.
pub net2number-lt : (p : Pointer) (k : ℕ) → IsMemory p → k < 2 ^ 16 → net2number p k < 2 ^ 64
unfolding is_wire_size
net2number-lt p k h small = rw (net2number_lem p k h small) (
    ground (
      arith,
      big_endian-lt 1 p h,
      big_endian-lt 2 p h,
      big_endian-lt 4 p h,
      big_endian-lt 6 p h,
      big_endian-lt 8 p h,
    ))
