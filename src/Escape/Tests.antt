-- ===== src/Escape/Tests.antt =====
-- Runs of the escaping, and its theorems at concrete inputs.
use f2k.Base.{none, Option, ℕ, ◌≡◌, refl, false, true, List, [], ◌∷◌, ◌++◌, some, arith, length}
use f2k.Printbuf.{
  contents, memcpy, copy_in, printbuf_extend, printbuf_memappend, printbuf_memappend_fast,
}
use f2k.Printbuf.Append.{IsValid}
use f2k.Escape.{
  Printbuf, append_char, valid_utf8_char, check_multibyte_characters, continuation_bytes, memchr,
  escaped_char, append_escaped_loop, append_escaped, printbuf_memappend_fast_n16,
}
use f2k.Escape.Utf8.{utf8_from, followers}
use f2k.Escape.Safe.{in_string}
use f2k.Escape.Lossless.{unescape}
use f2k.Escape.Append.{append_escaped-in_string, append_escaped-unescape}
use f2k.Samples.{zeroed, zeroed-never, small}

-- a"\n, a euro sign, and a byte that starts no character.
abbrev text : List ℕ
text = b'a' ∷ 0x22 ∷ 10 ∷ 0xe2 ∷ 0x82 ∷ 0xac ∷ []

abbrev shown : Option (ℕ × Printbuf) → List ℕ
shown none = []
shown (some (n, q)) = contents q

escapes_text :
    shown (append_escaped zeroed small (text ++ (0xff ∷ [])))
    ≡ 0x7b ∷ b'a' ∷ 0x5c ∷ 0x22 ∷ 0x5c ∷ b'n' ∷ 0xe2 ∷ 0x82 ∷ 0xac ∷ b'%' ∷ b'f' ∷ b'f' ∷ []
unfolding append_escaped append_escaped_loop append_char printbuf_memappend_fast_n16 valid_utf8_char
    check_multibyte_characters continuation_bytes memchr escaped_char printbuf_memappend_fast
    printbuf_memappend printbuf_extend copy_in memcpy f2k.Samples.grown
escapes_text = refl

-- An overlong form of three bytes, of the character 0, is taken for a character.
takes_overlong : valid_utf8_char (0xe0 ∷ 0x80 ∷ 0x80 ∷ []) ≡ some 3
unfolding valid_utf8_char check_multibyte_characters continuation_bytes
takes_overlong = refl

append_escaped-in_string_example :
    (out : List ℕ) × (q : Printbuf) × (append_escaped zeroed small text ≡ some (length out, q))
    × (contents q ≡ contents small ++ out)
    × (in_string false out ≡ true)
    × (utf8_from 0 out ≡ true)
    × IsValid q
append_escaped-in_string_example =
    append_escaped-in_string zeroed zeroed-never small text (omega arith) (omega arith)
      (omega arith) (omega arith)

append_escaped-unescape_example :
    (out : List ℕ) × (q : Printbuf) × (append_escaped zeroed small text ≡ some (length out, q))
    × (contents q ≡ contents small ++ out)
    × (unescape false out ≡ text)
unfolding utf8_from followers
append_escaped-unescape_example =
    append_escaped-unescape zeroed zeroed-never small text (omega arith) (omega arith) refl
      (omega arith) (omega arith)
