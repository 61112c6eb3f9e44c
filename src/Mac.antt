-- ===== src/Mac.antt =====
-- MAC addresses as text: src/rb_mac.c, and `etheraddr_string` of src/util.c.
-- A C string is the list of its bytes, without the NUL.
pub mod Parse
pub mod Form
pub mod Cases
mod Tests
use f2k.Base.{
  ℕ, zero, suc, ◌+◌, ◌-◌, ◌*◌, ◌/◌, ◌%◌, ◌^◌, Bool, ◌&&◌, ◌||◌, List, [], ◌∷◌, ◌++◌, length, get_or,
  ltb, leb, ◌==◌, if◌then◌else◌,
}
use f2k.Base.Bytes.{Pointer, advance}

unfoldable pub ishexchar : ℕ → Bool
ishexchar x = leb b'0' x && leb x b'9' || leb b'a' x && leb x b'f' || leb b'A' x && leb x b'F'

-- Called on hexadecimal digits only, where no subtraction wraps.
unfoldable pub hexchar : ℕ → ℕ
hexchar x =
    if leb b'0' x && leb x b'9'
    then x - b'0'
    else if leb b'a' x && leb x b'f'
    then x - b'a' + 10
    else x - b'A' + 10

-- `a[i]`; the NUL stands behind the text.
abbrev char_at : List ℕ → ℕ → ℕ
char_at a i = get_or a i 0

unfoldable pub validmac : List ℕ → Bool
validmac a =
    ishexchar (char_at a 0)
    && ishexchar (char_at a 1)
    && ishexchar (char_at a 3)
    && ishexchar (char_at a 4)
    && ishexchar (char_at a 6)
    && ishexchar (char_at a 7)
    && ishexchar (char_at a 9)
    && ishexchar (char_at a 10)
    && ishexchar (char_at a 12)
    && ishexchar (char_at a 13)
    && ishexchar (char_at a 15)
    && ishexchar (char_at a 16)
    && char_at a 2 == b':'
    && char_at a 5 == b':'
    && char_at a 8 == b':'
    && char_at a 11 == b':'
    && char_at a 14 == b':'

-- The result for what is no MAC address.
abbrev pub no_mac : ℕ
no_mac = 0xFFFF_FFFF_FFFF_FFFF

unfoldable pub parse_mac : List ℕ → ℕ
parse_mac mac =
    if length mac == 17
    then (if validmac mac
        then hexchar (char_at mac 16)
          + hexchar (char_at mac 15) * 2 ^ 4
          + hexchar (char_at mac 13) * 2 ^ 8
          + hexchar (char_at mac 12) * 2 ^ 12
          + hexchar (char_at mac 10) * 2 ^ 16
          + hexchar (char_at mac 9) * 2 ^ 20
          + hexchar (char_at mac 7) * 2 ^ 24
          + hexchar (char_at mac 6) * 2 ^ 28
          + hexchar (char_at mac 4) * 2 ^ 32
          + hexchar (char_at mac 3) * 2 ^ 36
          + hexchar (char_at mac 1) * 2 ^ 40
          + hexchar (char_at mac 0) * 2 ^ 44
        else no_mac)
    else no_mac

-- `hex[j]`, of "0123456789ABCDEF"
unfoldable pub hex : ℕ → ℕ
hex j = if ltb j 10 then b'0' + j else b'A' + (j - 10)

-- The two digits of a byte.
unfoldable pub hex_byte : ℕ → List ℕ
hex_byte b = (if b / 16 == 0 then b'0' else hex (b / 16)) ∷ hex (b % 16) ∷ []

-- The `for` loop: `i` bytes are left, each behind a colon.
unfoldable pub etheraddr_loop : ℕ → Pointer → List ℕ
etheraddr_loop zero ep = []
etheraddr_loop (suc i) ep = b':' ∷ (hex_byte (ep 0) ++ etheraddr_loop i (advance ep 1))

unfoldable pub etheraddr_string : Pointer → List ℕ
etheraddr_string ep = hex_byte (ep 0) ++ etheraddr_loop 5 (advance ep 1)
