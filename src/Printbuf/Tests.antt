-- ===== src/Printbuf/Tests.antt =====
-- Runs of the buffer, and its theorems at concrete inputs.
use f2k.Base.{ℕ, ◌≡◌, refl, List, [], ◌∷◌, arith}
use f2k.Printbuf.{contents, memcpy, copy_in, printbuf_extend, printbuf_memappend, printbuf_memset}
use f2k.Printbuf.Append.{Appended, memappend_lem}
use f2k.Samples.{zeroed, small}

abbrev word : List ℕ
word = b'a' ∷ b'b' ∷ b'c' ∷ []

append_grows : contents (printbuf_memappend zeroed small word).1 ≡ 0x7b ∷ word
unfolding printbuf_memappend printbuf_extend copy_in memcpy f2k.Samples.grown
append_grows = refl

memset_overwrites : contents (printbuf_memset zeroed small 0 b'x' 3).1 ≡ b'x' ∷ b'x' ∷ b'x' ∷ []
unfolding printbuf_memset printbuf_extend memcpy
memset_overwrites = refl

memappend_lem_example : Appended small word (printbuf_memappend zeroed small word)
memappend_lem_example = memappend_lem zeroed small word (omega arith) (omega arith)
