-- ===== src/Field.antt =====
-- src/export.c: `printNetflowRecordWithTemplate`, which prints the members of a line for one
-- element of a record, and src/template.h: the elements, `V9V10TemplateElementId`.
mod Tests
pub mod Line
pub mod Open
pub mod Members
pub mod Object
pub mod Cache
pub mod Saved
pub mod Plain
pub mod Address
pub mod Names
pub mod Http
pub mod Domain
pub mod Milliseconds
pub mod Private
pub mod Flags
pub mod MacMap
pub mod Texts
pub mod Writes
pub mod Table
pub mod Shown
use f2k.Printbuf.{memcpy, printbuf_memappend_fast, Allocator, Printbuf}
use f2k.Base.{
  ◌>>=◌, ℕ, ◌+◌, ◌-◌, ◌%◌, ◌^◌, Bool, false, ◌&&◌, Option, none, some, List, [], ◌∷◌, ltb, ◌==◌,
  if◌then◌else◌, get_or,
}
use f2k.Base.Bytes.{Pointer}

-- An element, with the elements of its `postTemplate` behind it. A function pointer is a name of
-- `F`; `none` is the null pointer.
mutual
  pub data Element (F : Type 0) : Type 0 where
    element : ℕ → Bool → Option (List ℕ) → Option F → Elements F → Element F

  pub data Elements (F : Type 0) : Type 0 where
    nil : Elements F
    cons : Element F → Elements F → Elements F

-- `export_fn`, on a flow cache `C`: the result, the line and the cache, or `none` if the process
-- ends in it.
abbrev pub ExportFn : Type 0 → Type 0
ExportFn C = Printbuf → Pointer → ℕ → C → Option (ℕ × Printbuf × C)

-- `!strcmp(buf, string)`, where `string` is a literal
unfoldable pub same_string : List ℕ → List ℕ → Bool
same_string buf [] = get_or buf 0 0 == 0
same_string [] (c ∷ cs) = false
same_string (b ∷ buf) (c ∷ cs) = (b == c) && same_string buf cs

-- A `size_t` through an `int` and back: the lower half, with its sign.
unfoldable pub int_of_size : ℕ → ℕ
int_of_size n = let low = n % 2 ^ 32 in if ltb low (2 ^ 31) then low else low + (2 ^ 64 - 2 ^ 32)

-- The bit pattern of an `int` above 0.
abbrev pub is_positive : ℕ → Bool
is_positive n = ltb 0 n && ltb n (2 ^ 31)

module _ (heap : Allocator) where
  -- The text in front of the value.
  unfoldable pub open_member : Printbuf → Bool → List ℕ → Printbuf
  open_member p quote name =
      let append = printbuf_memappend_fast heap in
      let p0 = if same_string p.buf (b'{' ∷ []) then p else append p (b',' ∷ []) in
      let p1 = append (append (append p0 (b'"' ∷ [])) name) (b'"' ∷ b':' ∷ []) in
      if quote then append p1 (b'"' ∷ []) else p1

  -- The text behind the value, or, if there is no value, the way back to `start_bpos`.
  unfoldable pub close_member : ℕ → Bool → ℕ → Printbuf → ℕ × Printbuf
  close_member start_bpos quote value_ret p =
      if is_positive value_ret
      then (if quote
          then ((value_ret + 2) % 2 ^ 32, printbuf_memappend_fast heap p (b'"' ∷ []))
          else (value_ret, p))
      else (value_ret, record p { buf = memcpy p.buf start_bpos (0 ∷ []); bpos = start_bpos })

  module _ {F C : Type 0} (call : F → ExportFn C) where
    unfoldable pub export_value : Option F → ExportFn C
    export_value none p buffer len cache = some (0, p, cache)
    export_value (some f) p buffer len cache = call f p buffer len cache

    -- An element without a name ends the process, in `strlen`.
    unfoldable pub print_member : Bool → Option (List ℕ) → Option F → ExportFn C
    print_member quote none f p buffer len cache = none
    print_member quote (some name) f p buffer len cache = do
      (r, q, cache1) ← export_value f (open_member p quote name) buffer len cache
      let (value_ret, q1) = close_member (int_of_size p.bpos) quote (r % 2 ^ 32) q
      some (int_of_size value_ret, q1, cache1)

    unfoldable mutual
      pub print_netflow_record_with_template : Element F → ExportFn C
      print_netflow_record_with_template (element id quote name f post) p buffer len cache = do
        (r, q, cache1) ← print_member quote name f p buffer len cache
        (q1, cache2) ← print_post_template post q buffer len cache1
        some (r, q1, cache2)

      pub print_post_template : Elements F → Printbuf → Pointer → ℕ → C → Option (Printbuf × C)
      print_post_template nil p buffer len cache = some (p, cache)
      print_post_template (cons e es) p buffer len cache = do
        (r, q, cache1) ← print_netflow_record_with_template e p buffer len cache
        print_post_template es q buffer len cache1
