-- ===== src/Printbuf.antt =====
-- src/printbuf.c and src/printbuf.h: the growing byte buffer in which a flow is printed.
-- A char array is the list of the bytes of its allocation; malloc and realloc are a parameter.
pub mod Append
mod Tests
use f2k.Base.{
  ℕ, ◌+◌, ◌-◌, ◌*◌, ◌%◌, ◌^◌, max, min, ◌≡◌, Bool, List, [], ◌∷◌, ◌++◌, Option, none, some, length,
  take, drop, ltb, leb, if◌then◌else◌,
}

-- The C library's allocator: a block is the list of its bytes, `none` the null pointer.
pub record Allocator : Type 0 where
  pub malloc : ℕ → Option (List ℕ)
  pub realloc : List ℕ → ℕ → Option (List ℕ)
  pub malloc_size : (n : ℕ) (b : List ℕ) → malloc n ≡ some b → length b ≡ n
  pub realloc_size : (old : List ℕ) (n : ℕ) (b : List ℕ) → realloc old n ≡ some b → length b ≡ n
  pub realloc_keeps :
      (old : List ℕ) (n : ℕ) (b : List ℕ)
      → realloc old n ≡ some b
      → take (min (length old) n) b ≡ take (min (length old) n) old

-- `struct printbuf`
pub record Printbuf : Type 0 where
  pub buf : List ℕ
  pub bpos : ℕ
  pub size : ℕ

abbrev pub size_mod : ℕ
size_mod = 2 ^ 64

-- `size_t` addition, multiplication and subtraction wrap.
abbrev pub add_size : ℕ → ℕ → ℕ
add_size a b = (a + b) % size_mod

abbrev pub mul_size : ℕ → ℕ → ℕ
mul_size a b = a * b % size_mod

abbrev pub sub_size : ℕ → ℕ → ℕ
sub_size a b = (a + size_mod - b) % size_mod

-- `memcpy(dst + i, src, n)`. A copy past the end would change the length of `dst`.
unfoldable pub memcpy : List ℕ → ℕ → List ℕ → List ℕ
memcpy dst i src = take i dst ++ (src ++ drop (i + length src) dst)

-- The bytes that the buffer holds.
abbrev pub contents : Printbuf → List ℕ
contents p = take p.bpos p.buf

-- The copy that the function and the macro share: the bytes, the new `bpos` and the final NUL.
unfoldable pub copy_in : Printbuf → List ℕ → Printbuf
copy_in p b =
    let end = add_size p.bpos (length b) in
    record p { buf = memcpy (memcpy p.buf p.bpos b) end (0 ∷ []); bpos = end }

-- `memset(dst + i, c, n)`
abbrev repeat : ℕ → ℕ → List ℕ
repeat ℕ.zero c = []
repeat (ℕ.suc n) c = c ∷ repeat n c

pub printbuf_reset : Printbuf → Printbuf
printbuf_reset p = record p { buf = memcpy p.buf 0 (0 ∷ []); bpos = 0 }

module _ (heap : Allocator) where
  open heap use {malloc, realloc}

  -- The `calloc` of the struct itself is taken to succeed; `none` if the text's `malloc` fails.
  unfoldable pub printbuf_new : Option Printbuf
  printbuf_new = elim (malloc 2048) [
    | none ↦ none
    | some b ↦ some (record { buf = b; bpos = 0; size = 2048 })
  ]

  -- `none` is the result -1, which leaves the buffer as it was.
  unfoldable pub printbuf_extend : Printbuf → ℕ → Option Printbuf
  printbuf_extend p min_size =
      let new_size = max (mul_size p.size 2) (add_size min_size 8) in
      if leb min_size p.size then some p else elim (realloc p.buf new_size) [
        | none ↦ none
        | some b ↦ some (record p { buf = b; size = new_size })
      ]

  -- The result is the `int` returned, as its bit pattern, or `none` for -1.
  unfoldable pub printbuf_memappend : Printbuf → List ℕ → Option ℕ × Printbuf
  printbuf_memappend p b =
      let needed = add_size (add_size p.bpos (length b)) 1 in
      if leb p.size needed
      then elim (printbuf_extend p needed) [
        | none ↦ (none, p)
        | some q ↦ (some (length b % 2 ^ 32), copy_in q b)
      ]
      else (some (length b % 2 ^ 32), copy_in p b)

  -- The macro: copy if there is room, or else call the function and ignore its result.
  unfoldable pub printbuf_memappend_fast : Printbuf → List ℕ → Printbuf
  printbuf_memappend_fast p b =
      if ltb (length b) (sub_size p.size p.bpos) then copy_in p b else (printbuf_memappend p b).1

  -- `false` is the result -1.
  unfoldable pub printbuf_memset : Printbuf → ℕ → ℕ → ℕ → Bool × Printbuf
  printbuf_memset p offset c len =
      let size_needed = add_size offset len in
      let fill = λ (q : Printbuf). record q {
        buf = memcpy q.buf offset (repeat len (c % 256));
        bpos = if ltb q.bpos size_needed then size_needed else q.bpos;
      } in
      if ltb p.size size_needed
      then elim (printbuf_extend p size_needed) [
        | none ↦ (Bool.false, p)
        | some q ↦ (Bool.true, fill q)
      ]
      else (Bool.true, fill p)
