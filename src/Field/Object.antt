-- ===== src/Field/Object.antt =====
-- `printNetflowRecordWithTemplate` keeps the line a brace and members between commas.
use f2k.Field.Open.{int_of_size_small, opening, length-opening, open_member-Copied}
use f2k.Printbuf.Append.{Copied-trans, Copied-nil}
use f2k.Field.Line.{IsLine, Member}
use f2k.Field.Members.{
  post_room, AreNamed, post_members, value_size-le, IsNamed, members, close_member-IsLine,
  member_of, value_size, value_of, Shows, Value, room,
}
use f2k.Field.{
  print_post_template, Elements, Element, print_netflow_record_with_template, close_member,
  open_member, print_member, export_value, ExportFn, element, nil, cons,
}
use f2k.Printbuf.{Printbuf, Allocator}
use f2k.Base.{
  ℕ, ◌+◌, ◌%◌, ◌^◌, ◌≤◌, ◌<◌, ◌≡◌, ◌≢◌, refl, sym, ap, subst, Bool, Option, none, some, List, ◌++◌,
  append-nil, append_assoc, arith, length,
}
use f2k.Base.Bytes.{Pointer, IsMemory}

module _ (heap : Allocator) (never : (old : List ℕ) (n : ℕ) → heap.realloc old n ≢ none)
    {F C : Type 0} (call : F → ExportFn C) (value : F → Value C) (IsGood : C → Type 0) (limit : ℕ)
    (shown : (f : F) → Shows IsGood limit (call f) (value f)) where
  export_value-Shows :
      (f : Option F) → Shows IsGood limit (export_value heap call f) (value_of value f)
  unfolding export_value
  export_value-Shows none p buffer len cache h w r b g =
      (p, refl, Copied-nil p r.valid r.ends, omega arith, g)
  export_value-Shows (some f) p buffer len cache h w r b g = shown f p buffer len cache h w r b g

  -- What printing left: the result, the members and the cache, with the text no longer than `top`.
  abbrev Printed : ℕ → List Member → ℕ → C → Option (ℕ × Printbuf × C) → Type 0
  Printed n ms top cache result =
      (q : Printbuf) × (result ≡ some (n, q, cache)) × IsLine q ms × (q.bpos ≤ top) × IsGood cache

  print_member-Printed :
      (quote : Bool) (name : List ℕ) (f : Option F) (p : Printbuf) (ms : List Member)
      (buffer : Pointer) (len : ℕ) (cache : C)
      → IsLine p ms
      → IsMemory buffer
      → len < 2 ^ 16
      → IsGood cache
      → p.bpos + length name + 6 + limit < 2 ^ 31
      → let (v, cache1) = value_of value f buffer len cache in
        Printed
          (value_size quote v)
          (ms ++ member_of quote name v)
          (p.bpos + length name + 6 + limit)
          cache1
          (print_member heap call quote (some name) f p buffer len cache)
  unfolding print_member
  print_member-Printed quote name f p ms buffer len cache l h w g b =
      let o = open_member heap p quote name in
      let (v, cache1) = value_of value f buffer len cache in
      let x0 = open_member-Copied heap never p ms quote name l (omega arith) in
      let small = length-opening ms quote name in
      let (q, e, x, small1, good) =
        export_value-Shows f o buffer len cache h w (record { valid = x0.valid; ends = x0.ends })
          (omega (arith, x0.moved)) g in
      let y = Copied-trans p o q (opening ms quote name) v x0 x in
      let c =
        close_member-IsLine heap never p q ms quote name v l y (omega (arith, x0.moved, x.moved)) in
      (
        (close_member heap p.bpos quote (length v % 2 ^ 32) q).1,
        rw (e, int_of_size_small p.bpos (omega arith), c.0)
            (ap (λ n. some (n, (close_member heap p.bpos quote (length v % 2 ^ 32) q).1, cache1))
              (int_of_size_small (value_size quote v) (omega (arith, value_size-le quote v)))),
        c.1,
        omega (arith, x0.moved, x.moved, c.2),
        good,
      )

  -- A line that is an open object with members, and that has room for the names of the element and
  -- of those behind it and for a value of `limit` bytes for each, is printed on: it is then the
  -- object with the members that the elements stand for behind the others, if every `realloc`
  -- succeeds, every element has a name and every function appends what it shows.
  mutual
    unfolding members room IsNamed print_netflow_record_with_template

    pub print_netflow_record_with_template-members :
        (e : Element F) (p : Printbuf) (ms : List Member) (buffer : Pointer) (len : ℕ) (cache : C)
        → IsLine p ms
        → IsNamed e
        → IsMemory buffer
        → len < 2 ^ 16
        → IsGood cache
        → p.bpos + room limit e < 2 ^ 31
        → let (ns, cache1) = members value e buffer len cache in
          (n : ℕ) × Printed n
            (ms ++ ns)
            (p.bpos + room limit e)
            cache1
            (print_netflow_record_with_template heap call e p buffer len cache)
    print_netflow_record_with_template-members (element id quote none f post) p ms buffer len cache
          l named h w g b =
        absurd (named.0 refl)
    print_netflow_record_with_template-members (element id quote (some name) f post) p ms buffer len
          cache l named h w g b =
        let (v, cache1) = value_of value f buffer len cache in
        let (ns, cache2) = post_members value post buffer len cache1 in
        let front = member_of quote name v in
        let (q, e, l1, b1, g1) =
          print_member-Printed quote name f p ms buffer len cache l h w g (omega arith) in
        let (r, e1, l2, b2, g2) =
          print_post_template-members post q (ms ++ front) buffer len cache1 l1 named.1 h w g1
            (omega arith) in
        (
          value_size quote v,
          (r, rw (e, e1) refl, subst (IsLine r) (append_assoc ms front ns) l2, omega arith, g2),
        )

    print_post_template-members :
        (es : Elements F) (p : Printbuf) (ms : List Member) (buffer : Pointer) (len : ℕ) (cache : C)
        → IsLine p ms
        → AreNamed es
        → IsMemory buffer
        → len < 2 ^ 16
        → IsGood cache
        → p.bpos + post_room limit es < 2 ^ 31
        → let (ns, cache1) = post_members value es buffer len cache in
          (q : Printbuf) × (print_post_template heap call es p buffer len cache ≡ some (q, cache1))
          × IsLine q (ms ++ ns)
          × (q.bpos ≤ p.bpos + post_room limit es)
          × IsGood cache1
    print_post_template-members nil p ms buffer len cache l named h w g b =
        (p, refl, subst (IsLine p) (sym (append-nil ms)) l, omega arith, g)
    print_post_template-members (cons e es) p ms buffer len cache l named h w g b =
        let (front, cache1) = members value e buffer len cache in
        let (n, (q, e1, l1, b1, g1)) =
          print_netflow_record_with_template-members e p ms buffer len cache l named.0 h w g
            (omega arith) in
        let (r, e2, l2, b2, g2) =
          print_post_template-members es q (ms ++ front) buffer len cache1 l1 named.1 h w g1
            (omega arith) in
        (
          r,
          rw (e1, e2) refl,
          subst (IsLine r) (append_assoc ms front (post_members value es buffer len cache1).0) l2,
          omega arith,
          g2,
        )
