-- ===== src/Escape/Append.antt =====
-- `append_escaped` on a valid buffer, with an allocator that does not fail.
use f2k.Base.{some, ℕ, ◌+◌, ◌*◌, ◌^◌, ◌<◌, ◌≡◌, ◌≢◌, false, true, List, ◌++◌, none, length, All}
use f2k.Base.Bytes.{IsByte}
use f2k.Printbuf.{Allocator, Printbuf, contents}
use f2k.Printbuf.Append.{IsValid}
use f2k.Escape.{append_escaped}
use f2k.Escape.Relation.{append_escaped-Escapes}
use f2k.Escape.Utf8.{utf8_from}
use f2k.Escape.Safe.{in_string, Escapes-in_string}
use f2k.Escape.Lossless.{unescape, unescape-Escapes, Escapes-utf8}

module _ (heap : Allocator) (never : (old : List ℕ) (n : ℕ) → heap.realloc old n ≢ none) where
  -- If every `realloc` succeeds, the string has less than 2 ^ 32 bytes and all stays below 2 ^ 60
  -- bytes: whatever the bytes of the string, `append_escaped` returns, with the number of bytes
  -- that it appends to the text of a valid buffer, and the buffer stays valid. What it appends
  -- holds no bare quote and no backslash without an escape letter behind it, and every byte in it
  -- from 128 on is a leading byte from 0xc2 to 0xf7 with the one, two or three trailing bytes that
  -- it wants, or one of these. Surrogates, overlong forms of three and four bytes, numbers above
  -- 0x10ffff and raw control characters are not excluded.
  pub append_escaped-in_string :
      (p : Printbuf) (string : List ℕ)
      → All IsByte string
      → length string < 2 ^ 32
      → IsValid p
      → p.bpos + 3 * length string + 4 < 2 ^ 60
      → (out : List ℕ) × (q : Printbuf) × (append_escaped heap p string ≡ some (length out, q))
        × (contents q ≡ contents p ++ out)
        × (in_string false out ≡ true)
        × (utf8_from 0 out ≡ true)
        × IsValid q
  append_escaped-in_string p string h small v f =
      let (out, q, d, e, b, w) = append_escaped-Escapes heap never p string small v f in
      (out, q, e, b, Escapes-in_string h d, Escapes-utf8 h d, w)

  -- If every `realloc` succeeds and all stays below 2 ^ 60 bytes, a string of less than 2 ^ 32
  -- bytes, in which every leading byte has the trailing bytes that it wants and no others stand, is
  -- kept: `append_escaped` returns, and a reader of JSON strings takes what it appends to a valid
  -- buffer back to the string.
  pub append_escaped-unescape :
      (p : Printbuf) (string : List ℕ)
      → All IsByte string
      → length string < 2 ^ 32
      → utf8_from 0 string ≡ true
      → IsValid p
      → p.bpos + 3 * length string + 4 < 2 ^ 60
      → (out : List ℕ) × (q : Printbuf) × (append_escaped heap p string ≡ some (length out, q))
        × (contents q ≡ contents p ++ out)
        × (unescape false out ≡ string)
  append_escaped-unescape p string h small u v f =
      let (out, q, d, e, b, w) = append_escaped-Escapes heap never p string small v f in
      (out, q, e, b, unescape-Escapes h u d)
