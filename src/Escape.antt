-- ===== src/Escape.antt =====
-- src/util.c: JSON escaping of text that may not be UTF-8 (`append_escaped` and what it calls).
-- A string with its length is the list of its bytes.
pub mod Relation
pub mod Utf8
pub mod Safe
pub mod Lossless
pub mod Append
pub mod Endless
mod Tests
use f2k.Base.{
  ◌^◌, ℕ, zero, suc, ◌-◌, ◌/◌, ◌%◌, ◌+◌, Bool, true, false, ◌||◌, List, [], ◌∷◌, Option, none, some,
  length, get_or, take, drop, ltb, ◌==◌, if◌then◌else◌, bit_and,
}
use f2k.Printbuf.{Allocator, Printbuf, printbuf_memappend_fast, sub_size}

-- The loop of `check_multibyte_characters`: the first `nchar` bytes are 10xxxxxx.
unfoldable pub continuation_bytes : List ℕ → ℕ → Bool
continuation_bytes [] nchar = true
continuation_bytes (b ∷ str) zero = true
continuation_bytes (b ∷ str) (suc nchar) =
    let rest = continuation_bytes str nchar in if bit_and b 0xc0 == 0x80 then rest else false

unfoldable pub check_multibyte_characters : List ℕ → ℕ → Bool
check_multibyte_characters str nchar =
    if ltb (length str) nchar then false else continuation_bytes str nchar

-- The length of the character at the head of the text, or `none` for -1. The text is not empty.
unfoldable pub valid_utf8_char : List ℕ → Option ℕ
valid_utf8_char [] = none
valid_utf8_char (b ∷ str) =
    if bit_and b 0x80 == 0
    then some 1
    else if b == 0xc0 || b == 0xc1
    then none
    else if bit_and b 0xe0 == 0xc0
    then (if check_multibyte_characters str 1 then some 2 else none)
    else if bit_and b 0xf0 == 0xe0
    then (if check_multibyte_characters str 2 then some 3 else none)
    else if bit_and b 0xf8 == 0xf0
    then (if check_multibyte_characters str 3 then some 4 else none)
    else none

-- `"\"\\/\b\f\n\r\t"` and `"\"\\/bfnrt"`
abbrev pub to_escape_chars : List ℕ
to_escape_chars = 0x22 ∷ 0x5c ∷ 0x2f ∷ 8 ∷ 12 ∷ 10 ∷ 13 ∷ 9 ∷ []

abbrev pub escaped_chars : List ℕ
escaped_chars = 0x22 ∷ 0x5c ∷ 0x2f ∷ b'b' ∷ b'f' ∷ b'n' ∷ b'r' ∷ b't' ∷ []

-- `memchr` as the offset of the byte found.
unfoldable pub memchr : List ℕ → ℕ → Option ℕ
memchr [] c = none
memchr (x ∷ xs) c =
    let rest = memchr xs c in
    if x == c then some 0 else elim rest [ none ↦ none | some i ↦ some (suc i) ]

-- The letter behind the backslash, for a character of one byte that needs one.
unfoldable pub escaped_char : ℕ → ℕ → Option ℕ
escaped_char utf8_length c =
    if utf8_length == 1
    then (elim (memchr to_escape_chars c) [
      | none ↦ none
      | some offset ↦ some (get_or escaped_chars offset 0)
    ])
    else none

-- `hexbuf` of `printbuf_memappend_fast_n16`
abbrev pub hexbuf : ℕ → ℕ
hexbuf d = if ltb d 10 then b'0' + d else b'a' + d - 10

module _ (heap : Allocator) where
  unfoldable pub printbuf_memappend_fast_n16 : Printbuf → ℕ → Printbuf
  printbuf_memappend_fast_n16 p value =
      let q = printbuf_memappend_fast heap p (hexbuf (value / 16) ∷ []) in
      printbuf_memappend_fast heap q (hexbuf (value % 16) ∷ [])

  -- A round of the `while` loop, on the string from `i` on: how far `i` moves, and the buffer.
  unfoldable pub append_char : Printbuf → List ℕ → ℕ × Printbuf
  append_char p [] = (1, p)
  append_char p (c ∷ cs) = elim (valid_utf8_char (c ∷ cs)) [
    | none ↦ (1, printbuf_memappend_fast_n16 (printbuf_memappend_fast heap p (b'%' ∷ [])) c)
    | some utf8_length ↦ elim (escaped_char utf8_length c) [
      | some e ↦
          (1, printbuf_memappend_fast heap (printbuf_memappend_fast heap p (0x5c ∷ [])) (e ∷ []))
      | none ↦ (utf8_length, printbuf_memappend_fast heap p (take utf8_length (c ∷ cs)))
    ]
  ]

  -- The `while` loop; `none` means that the fuel ran out. `i` is an `unsigned`, of 32 bits.
  unfoldable pub append_escaped_loop : ℕ → List ℕ → ℕ → Printbuf → Option Printbuf
  append_escaped_loop zero string i p = if ltb i (length string) then none else some p
  append_escaped_loop (suc fuel) string i p =
      let (n, q) = append_char p (drop i string) in
      let rest = append_escaped_loop fuel string ((i + n) % 2 ^ 32) q in
      if ltb i (length string) then rest else some p

  -- A round for each byte; `none` is a loop that does not end.
  unfoldable pub append_escaped : Printbuf → List ℕ → Option (ℕ × Printbuf)
  append_escaped p string = elim (append_escaped_loop (length string) string 0 p) [
    | none ↦ none
    | some q ↦ some (sub_size q.bpos p.bpos, q)
  ]
