-- ===== src/Mac/Tests.antt =====
-- Runs of the MAC functions, and their theorems at concrete inputs.
use f2k.Base.{ℕ, ◌≡◌, refl, List, [], ◌∷◌, arith}
use f2k.Base.Bytes.{Pointer, IsMemory, big_endian}
use f2k.Mac.{ishexchar, hexchar, validmac, parse_mac, etheraddr_string}
use f2k.Mac.Parse.{parse_mac-etheraddr_string}

-- Six times the byte 0xab.
abbrev bytes : Pointer
bytes i = 0xab

bytes-IsMemory : IsMemory bytes
bytes-IsMemory i = omega arith

abbrev text : List ℕ
text =
    b'0' ∷ b'0' ∷ b':' ∷ b'0' ∷ b'a' ∷ b':' ∷ b'0' ∷ b'0' ∷ b':' ∷ b'0' ∷ b'0' ∷ b':' ∷ b'0' ∷ b'0'
    ∷ b':' ∷ b'f' ∷ b'F' ∷ []

reads_text : parse_mac text ≡ 0x000a_0000_00ff
unfolding parse_mac validmac ishexchar hexchar
reads_text = refl

parse_mac-etheraddr_string_example : parse_mac (etheraddr_string bytes) ≡ big_endian 6 bytes
parse_mac-etheraddr_string_example = parse_mac-etheraddr_string bytes bytes-IsMemory
