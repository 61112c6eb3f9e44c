-- ===== src/Printbuf/Append.antt =====
-- The buffer refines the sequence of its bytes: an append is a concatenation, and no byte is
-- written outside the allocation.
use f2k.Base.{
  append-nil, ℕ, ◌+◌, ◌-◌, ◌*◌, ◌%◌, ◌^◌, ◌≤◌, ◌<◌, min, max, leb, ltb, true, leb→le, ◌≢◌,
  Bool-cases, Option-cases, sym, ◌≡◌, refl, ◌⊎◌, inl, inr, ◌∙◌, ap, List, [], ◌∷◌, ◌++◌, Option,
  none, some, arith, length, take, drop, get_or, length-append, length-take, length-drop,
  take-append, take-take, get_or-append, append_assoc,
}
use f2k.Printbuf.{
  Allocator, Printbuf, contents, memcpy, copy_in, printbuf_new, printbuf_extend, printbuf_memappend,
  printbuf_memappend_fast,
}

-- The text ends inside the allocation, which is far from the end of the address space.
pub record IsValid (p : Printbuf) : Type 0 where
  pub whole : length p.buf ≡ p.size
  pub room : p.bpos < p.size
  pub small : p.size ≤ 2 ^ 62

-- A text far below the end of the address space, so that no `size_t` of an append wraps.
abbrev pub Fits : Printbuf → List ℕ → Type 0
Fits p b = p.bpos + length b < 2 ^ 60

pub length-memcpy :
    (dst : List ℕ) (i : ℕ) (src : List ℕ)
    → i + length src ≤ length dst
    → length (memcpy dst i src) ≡ length dst
unfolding memcpy
length-memcpy dst i src h = omega (
  arith,
  length-append (take i dst) (src ++ drop (i + length src) dst),
  length-append src (drop (i + length src) dst),
  length-take i dst,
  length-drop (i + length src) dst,
)

-- The bytes in front of a copy, with the copy itself, are those before and those copied.
pub take-memcpy :
    (dst : List ℕ) (i : ℕ) (src : List ℕ)
    → i ≤ length dst
    → take (i + length src) (memcpy dst i src) ≡ take i dst ++ src
unfolding memcpy
take-memcpy dst i src h = rw (← append_assoc) (
    take-append (i + length src) (take i dst ++ src) (drop (i + length src) dst)
      (omega (arith, length-append (take i dst) src, length-take i dst)))

pub take-memcpy_before :
    (dst : List ℕ) (i : ℕ) (src : List ℕ) → i ≤ length dst → take i (memcpy dst i src) ≡ take i dst
unfolding memcpy
take-memcpy_before dst i src h =
    take-append i (take i dst) (src ++ drop (i + length src) dst) (omega (arith, length-take i dst))

pub get_or-memcpy :
    (dst : List ℕ) (i x d : ℕ) → i ≤ length dst → get_or (memcpy dst i (x ∷ [])) i d ≡ x
unfolding memcpy
get_or-memcpy dst i x d h =
    get_or-append i (take i dst) x (drop (i + 1) dst) d (omega (arith, length-take i dst))

size-copy_in : (p : Printbuf) (b : List ℕ) → (copy_in p b).size ≡ p.size
unfolding copy_in
size-copy_in p b = refl

-- `b` was appended. The allocation is kept, or is at most about twice the text.
pub record Copied (p : Printbuf) (b : List ℕ) (q : Printbuf) : Type 0 where
  pub valid : IsValid q
  pub bytes : contents q ≡ contents p ++ b
  pub moved : q.bpos ≡ p.bpos + length b
  pub ends : get_or q.buf q.bpos 1 ≡ 0
  pub growth : q.size ≤ max p.size (2 * q.bpos + 2048)

copy_in-Copied :
    (p : Printbuf) (b : List ℕ)
    → length p.buf ≡ p.size
    → p.bpos + length b < p.size
    → p.size ≤ 2 ^ 62
    → Copied p b (copy_in p b)
unfolding copy_in
copy_in-Copied p b hw hr hs =
    let e : (p.bpos + length b) % 2 ^ 64 ≡ p.bpos + length b = omega arith in
    let inner = length-memcpy p.buf p.bpos b (omega arith) in
    record {
      valid = record {
        whole = rw e (
            length-memcpy (memcpy p.buf p.bpos b) (p.bpos + length b) (0 ∷ []) (omega arith)
            ∙ inner
            ∙ hw);
        room = omega arith;
        small = omega arith;
      };
      bytes = rw e (
          take-memcpy_before (memcpy p.buf p.bpos b) (p.bpos + length b) (0 ∷ []) (omega arith)
          ∙ take-memcpy p.buf p.bpos b (omega arith));
      moved = e;
      ends = rw e (get_or-memcpy (memcpy p.buf p.bpos b) (p.bpos + length b) 0 1 (omega arith));
      growth = omega arith;
    }

-- An append of nothing.
pub Copied-nil : (p : Printbuf) → IsValid p → get_or p.buf p.bpos 1 ≡ 0 → Copied p [] p
Copied-nil p v ends = record {
  valid = v;
  bytes = sym (append-nil (contents p));
  moved = omega arith;
  ends = ends;
  growth = omega arith;
}

-- Two appends, one after the other.
pub Copied-trans :
    (p q r : Printbuf) (a b : List ℕ) → Copied p a q → Copied q b r → Copied p (a ++ b) r
Copied-trans p q r a b x y = record {
  valid = y.valid;
  bytes = y.bytes ∙ ap (λ t. t ++ b) x.bytes ∙ append_assoc (contents p) a b;
  moved = omega (arith, x.moved, y.moved, length-append a b);
  ends = y.ends;
  growth = omega (arith, x.moved, y.moved, x.growth, y.growth);
}

-- What an append does: it fails and leaves the buffer, or appends exactly the bytes given.
abbrev pub Appended : Printbuf → List ℕ → Option ℕ × Printbuf → Type 0
Appended p b (r, q) = ((r ≡ none) × (q ≡ p)) ⊎ ((r ≡ some (length b % 2 ^ 32)) × Copied p b q)

module _ (heap : Allocator) where
  -- A new buffer is valid and empty.
  pub printbuf_new-IsValid :
      (p : Printbuf) → printbuf_new heap ≡ some p → IsValid p × (contents p ≡ [])
  unfolding printbuf_new
  printbuf_new-IsValid p e = elim (Option-cases (heap.malloc 2048)) [
    | inl fails ↦ absurd (ground arith)
    | inr (b, got) ↦ ground (arith, heap.malloc_size 2048 b got)
  ]

  contents-realloc :
      (old b : List ℕ) (n i : ℕ)
      → i ≤ length old
      → i ≤ n
      → heap.realloc old n ≡ some b
      → take i b ≡ take i old
  contents-realloc old b n i ho hn e =
      sym (take-take i (min (length old) n) b (omega arith))
      ∙ ap (take i) (heap.realloc_keeps old n b e)
      ∙ take-take i (min (length old) n) old (omega arith)

  record Extended (p : Printbuf) (n : ℕ) (q : Printbuf) : Type 0 where
    whole : length q.buf ≡ q.size
    room : n ≤ q.size
    kept : q.bpos ≡ p.bpos
    bytes : contents q ≡ contents p
    small : q.size ≤ 2 ^ 62
    growth : (q.size ≤ p.size) ⊎ (q.size ≤ max (2 * p.size) (n + 8))

  extend-Extended :
      (p q : Printbuf) (n : ℕ)
      → length p.buf ≡ p.size
      → p.bpos ≤ p.size
      → p.bpos < n
      → p.size ≤ n
      → n < 2 ^ 61
      → printbuf_extend heap p n ≡ some q
      → Extended p n q
  unfolding printbuf_extend
  extend-Extended p q n hw hp hb hs hn e = elim (Bool-cases (leb n p.size)) [
    | inl enough ↦ ground arith
    | inr short ↦
        let m = max (p.size * 2 % 2 ^ 64) ((n + 8) % 2 ^ 64) in
        elim (Option-cases (heap.realloc p.buf m)) [
          | inl fails ↦ absurd (ground arith)
          | inr (b, got) ↦ ground (
            arith,
            contents-realloc p.buf b m p.bpos (omega arith) (omega arith) got,
            heap.realloc_size p.buf m b got,
          )
        ]
  ]

  Extended-Copied :
      (p q : Printbuf) (b : List ℕ)
      → IsValid p
      → p.size ≤ p.bpos + length b + 1
      → Extended p (p.bpos + length b + 1) q
      → Copied p b (copy_in q b)
  Extended-Copied p q b v short x =
      let c = copy_in-Copied q b x.whole (omega arith) x.small in
      record {
        valid = c.valid;
        bytes = c.bytes ∙ ap (λ r. r ++ b) x.bytes;
        moved = omega arith;
        ends = c.ends;
        growth = omega arith;
      }

  -- On a valid buffer, and with less than 2 ^ 60 bytes in all, an append either fails, with the
  -- buffer unchanged, or returns the number of bytes and leaves a valid buffer whose text is the
  -- old text followed by exactly those bytes.
  pub memappend_lem :
      (p : Printbuf) (b : List ℕ)
      → IsValid p
      → Fits p b
      → Appended p b (printbuf_memappend heap p b)
  unfolding printbuf_memappend
  memappend_lem p b v f =
      let n = p.bpos + length b + 1 in
      let e : ((p.bpos + length b) % 2 ^ 64 + 1) % 2 ^ 64 ≡ p.bpos + length b + 1 = omega arith in
      rw e (elim (Bool-cases (leb p.size (p.bpos + length b + 1))) [
        | inl short ↦ elim (Option-cases (printbuf_extend heap p (p.bpos + length b + 1))) [
          | inl fails ↦ rw (short, fails) (inl (refl, refl))
          | inr (q, got) ↦ rw (short, got) (inr (refl, copied q short got))
        ]
        | inr fits ↦ rw fits (inr (refl, copy_in-Copied p b v.whole (ground arith) v.small))
      ])
    where
      copied :
          (q : Printbuf)
          → leb p.size (p.bpos + length b + 1) ≡ true
          → printbuf_extend heap p (p.bpos + length b + 1) ≡ some q
          → Copied p b (copy_in q b)
      copied q short got = Extended-Copied p q b v (leb→le _ _ short) (
          extend-Extended p q (p.bpos + length b + 1) v.whole (omega arith) (omega arith)
            (leb→le _ _ short) (omega arith) got)

  -- The macro leaves the buffer that a failed append leaves, or appends exactly the bytes given.
  pub memappend_fast_lem :
      (p : Printbuf) (b : List ℕ)
      → IsValid p
      → Fits p b
      → (printbuf_memappend_fast heap p b ≡ p) ⊎ Copied p b (printbuf_memappend_fast heap p b)
  unfolding printbuf_memappend_fast
  memappend_fast_lem p b v f =
      elim (Bool-cases (ltb (length b) ((p.size + 2 ^ 64 - p.bpos) % 2 ^ 64))) [
        | inl fits ↦ rw fits (inr (copy_in-Copied p b v.whole (ground arith) v.small))
        | inr short ↦
            rw short
              (elim (memappend_lem p b v f) [ inl (_, same) ↦ inl same | inr (_, c) ↦ inr c ])
      ]

  memappend-ne-none :
      (p : Printbuf) (b : List ℕ)
      → ((old : List ℕ) (n : ℕ) → heap.realloc old n ≢ none)
      → (printbuf_memappend heap p b).0 ≢ none
  unfolding printbuf_memappend printbuf_extend
  memappend-ne-none p b never =
      let n = ((p.bpos + length b) % 2 ^ 64 + 1) % 2 ^ 64 in
      ground (arith, never p.buf (max (p.size * 2 % 2 ^ 64) ((n + 8) % 2 ^ 64)))

  -- If every `realloc` succeeds, the macro appends exactly the bytes given to a valid buffer, with
  -- less than 2 ^ 60 bytes in all, and leaves it valid.
  pub memappend_fast-Copied :
      (p : Printbuf) (b : List ℕ)
      → ((old : List ℕ) (n : ℕ) → heap.realloc old n ≢ none)
      → IsValid p
      → Fits p b
      → Copied p b (printbuf_memappend_fast heap p b)
  unfolding printbuf_memappend_fast
  memappend_fast-Copied p b never v f =
      elim (Bool-cases (ltb (length b) ((p.size + 2 ^ 64 - p.bpos) % 2 ^ 64))) [
        | inl fits ↦ rw fits (copy_in-Copied p b v.whole (ground arith) v.small)
        | inr short ↦ rw short (elim (memappend_lem p b v f) [
          | inl (fails, _) ↦ absurd (memappend-ne-none p b never fails)
          | inr (_, c) ↦ c
        ])
      ]
