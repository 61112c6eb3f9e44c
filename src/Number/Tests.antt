-- ===== src/Number/Tests.antt =====
-- Runs of the number functions, and their theorems at concrete inputs.
use f2k.Base.{ℕ, ◌-◌, ◌^◌, ◌≡◌, refl, List, [], ◌∷◌, some, arith, length, if◌then◌else◌}
use f2k.Base.Bytes.{IsMemory, Pointer, pointer_to, big_endian}
use f2k.Printbuf.{Printbuf}
use f2k.Printbuf.Append.{Copied}
use f2k.Number.{
  net2number, to_int64, quot_ten, digit_table, digit_index, itoa10_loop, itoa10,
  printbuf_memappend_fast_n10, byte_text, intoa_loop, intoa_v4,
}
use f2k.Number.Wire.{is_wire_size, net2number_lem}
use f2k.Number.Decimal.{Digits, magnitude, signed_text}
use f2k.Number.Print.{printbuf_memappend_fast_n10_lem}
use f2k.Number.Dotted.{read_dotted, read_dotted-intoa_v4}
use f2k.Samples.{zeroed, zeroed-never, small}

-- Every offset holds 7.
abbrev sevens : Pointer
sevens i = 7

sevens-IsMemory : IsMemory sevens
sevens-IsMemory i = omega arith

reads_six : net2number (pointer_to (1 ∷ 2 ∷ 3 ∷ 4 ∷ 5 ∷ 6 ∷ [])) 6 ≡ 0x010203040506
unfolding net2number big_endian
reads_six = refl

-- Sizes of three bytes are not read.
reads_no_three : net2number sevens 3 ≡ 0
unfolding net2number
reads_no_three = refl

prints_max : itoa10 (to_int64 (2 ^ 64 - 1)) ≡ some (b'-' ∷ b'1' ∷ [])
unfolding itoa10 itoa10_loop to_int64 quot_ten digit_table digit_index
prints_max = refl

prints_address :
    intoa_v4 0x0a00_01ff ≡ b'1' ∷ b'0' ∷ b'.' ∷ b'0' ∷ b'.' ∷ b'1' ∷ b'.' ∷ b'2' ∷ b'5' ∷ b'5' ∷ []
unfolding intoa_v4 intoa_loop byte_text
prints_address = refl

net2number_lem_example : net2number sevens 6 ≡ (if is_wire_size 6 then big_endian 6 sevens else 0)
net2number_lem_example = net2number_lem sevens 6 sevens-IsMemory (omega arith)

printbuf_memappend_fast_n10_lem_example :
    (d : List ℕ) × (q : Printbuf) × Digits (magnitude 1234) 20 d
    × (printbuf_memappend_fast_n10 zeroed small 1234 ≡ some (length (signed_text 1234 d), q))
    × Copied small (signed_text 1234 d) q
printbuf_memappend_fast_n10_lem_example =
    printbuf_memappend_fast_n10_lem zeroed zeroed-never small 1234 (omega arith) (omega arith)
      (omega arith)

read_dotted-intoa_v4_example : read_dotted 0 0 (intoa_v4 0x0a00_01ff) ≡ 0x0a00_01ff
read_dotted-intoa_v4_example = read_dotted-intoa_v4 0x0a00_01ff (omega arith)
