-- ===== src/Escape/Endless.antt =====
-- A string that the 32 bits of `append_escaped`'s index cannot reach the end of.
use f2k.Base.{ℕ, zero, suc, ◌^◌, ◌≤◌, ◌<◌, ◌≡◌, refl, true, none, List, arith, ltb, length}
use f2k.Escape.{Printbuf, Allocator, append_escaped_loop, append_escaped}

module _ (heap : Allocator) where
  append_escaped_loop-endless :
      (fuel : ℕ) (string : List ℕ) (i : ℕ) (p : Printbuf)
      → 2 ^ 32 ≤ length string
      → i < 2 ^ 32
      → append_escaped_loop heap fuel string i p ≡ none
  unfolding append_escaped_loop
  append_escaped_loop-endless zero string i p long h = ground arith
  append_escaped_loop-endless (suc fuel) string i p long h =
      let more : ltb i (length string) ≡ true = ground arith in
      rw more (append_escaped_loop-endless fuel string _ _ long (omega arith))

  -- A string of 2 ^ 32 bytes or more is never done with, whatever the fuel: the index wraps.
  pub append_escaped-endless :
      (p : Printbuf) (string : List ℕ)
      → 2 ^ 32 ≤ length string
      → append_escaped heap p string ≡ none
  unfolding append_escaped
  append_escaped-endless p string long =
      rw (append_escaped_loop-endless (length string) string 0 p long (omega arith), append_escaped)
        refl
