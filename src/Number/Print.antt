-- ===== src/Number/Print.antt =====
-- A number printed into the buffer.
use f2k.Base.{ℕ, ◌+◌, ◌^◌, ◌<◌, ◌≡◌, ◌≢◌, List, some, none, arith, length}
use f2k.Printbuf.{Allocator, Printbuf, printbuf_memappend_fast}
use f2k.Printbuf.Append.{IsValid, Copied, memappend_fast-Copied}
use f2k.Number.{printbuf_memappend_fast_n10}
use f2k.Number.Decimal.{Digits, magnitude, signed_text, itoa10_lem}

module _ (heap : Allocator) (never : (old : List ℕ) (n : ℕ) → heap.realloc old n ≢ none) where
  -- Printing a 64-bit value into a valid buffer always ends, if every `realloc` succeeds and the
  -- text stays below 2 ^ 60 bytes. A value below 2 ^ 63 is appended as its decimal digits; a
  -- greater one as a minus sign and the digits of 2 ^ 64 minus the value, since the parameter of
  -- `_itoa10` is signed. The result is the number of bytes appended.
  pub printbuf_memappend_fast_n10_lem :
      (p : Printbuf) (value : ℕ)
      → value < 2 ^ 64
      → IsValid p
      → p.bpos + 21 < 2 ^ 60
      → (d : List ℕ) × (q : Printbuf) × Digits (magnitude value) 20 d
        × (printbuf_memappend_fast_n10 heap p value ≡ some (length (signed_text value d), q))
        × Copied p (signed_text value d) q
  unfolding printbuf_memappend_fast_n10
  printbuf_memappend_fast_n10_lem p value h v f =
      let (d, x, e) = itoa10_lem value h in
      let t = signed_text value d in
      (
        d,
        printbuf_memappend_fast heap p t,
        x,
        rw (e, printbuf_memappend_fast_n10),
        memappend_fast-Copied heap p t never v (ground (arith, x)),
      )
