-- ===== src/Field/Members.antt =====
-- `printNetflowRecordWithTemplate` adds members to the object of the line: those of the element and
-- of the elements behind it, in their order.
use f2k.Field.Open.{opening-value, quote-Copied, reset-IsReady, opening}
use f2k.Printbuf.Append.{Copied}
use f2k.Field.Line.{object_text, quote_mark, IsLine, IsReady, Member}
use f2k.Field.{Elements, is_positive, element, nil, cons, close_member, Element, ExportFn}
use f2k.Printbuf.{Printbuf, Allocator}
use f2k.Base.{
  ℕ, ◌+◌, ◌%◌, ◌^◌, ◌≤◌, ◌<◌, ◌≡◌, ◌≢◌, refl, sym, ap, subst, ◌∙◌, Bool, true, false, Option, none,
  some, List, [], ◌∷◌, ◌++◌, append-nil, append_assoc, arith, if◌then◌else◌, length, length-append,
}
use f2k.Base.Bytes.{Pointer, IsMemory}

-- The member of a value; an empty value has none.
abbrev pub member_of : Bool → List ℕ → List ℕ → List Member
member_of quote name [] = []
member_of quote name (x ∷ xs) = record { name = name; quoted = quote; value = x ∷ xs } ∷ []

-- The bytes that a value takes, with its quotes.
abbrev pub value_size : Bool → List ℕ → ℕ
value_size quote [] = 0
value_size quote (x ∷ xs) = length (x ∷ xs) + (if quote then 2 else 0)

pub value_size-le : (quote : Bool) (v : List ℕ) → value_size quote v ≤ length v + 2
value_size-le quote [] = omega arith
value_size-le true (x ∷ xs) = omega arith
value_size-le false (x ∷ xs) = omega arith

-- A printing function of a cache `C` as what it shows: the bytes, and the cache behind it.
abbrev pub Value : Type 0 → Type 0
Value C = Pointer → ℕ → C → List ℕ × C

module _ {C : Type 0} (IsGood : C → Type 0) (limit : ℕ) where
  -- A call that appended exactly the bytes shown, at most `limit`, returned their number and left a
  -- good cache.
  abbrev pub Showing : Printbuf → List ℕ × C → Option (ℕ × Printbuf × C) → Type 0
  Showing p (v, cache) result =
      (q : Printbuf) × (result ≡ some (length v, q, cache))
      × Copied p v q
      × (length v ≤ limit)
      × IsGood cache

  -- On a ready buffer with room for `limit` bytes, a field of less than 2 ^ 16 bytes and a good
  -- cache, the function appends exactly what it shows.
  abbrev pub Shows : ExportFn C → Value C → Type 0
  Shows f v =
      (p : Printbuf) (buffer : Pointer) (len : ℕ) (cache : C)
      → IsMemory buffer
      → len < 2 ^ 16
      → IsReady p
      → p.bpos + limit < 2 ^ 31
      → IsGood cache
      → Showing p (v buffer len cache) (f p buffer len cache)

module _ {F C : Type 0} (value : F → Value C) where
  abbrev pub value_of : Option F → Value C
  value_of none buffer len cache = ([], cache)
  value_of (some f) buffer len cache = value f buffer len cache

  -- The members that an element stands for, and the cache behind them.
  unfoldable mutual
    pub members : Element F → Pointer → ℕ → C → List Member × C
    members (element id quote none f post) buffer len cache = ([], cache)
    members (element id quote (some name) f post) buffer len cache =
        let (v, cache1) = value_of f buffer len cache in
        let (ms, cache2) = post_members post buffer len cache1 in
        (member_of quote name v ++ ms, cache2)

    pub post_members : Elements F → Pointer → ℕ → C → List Member × C
    post_members nil buffer len cache = ([], cache)
    post_members (cons e es) buffer len cache =
        let (ms, cache1) = members e buffer len cache in
        let (ns, cache2) = post_members es buffer len cache1 in (ms ++ ns, cache2)

-- Every element has a name.
unfoldable mutual
  pub IsNamed : {F : Type 0} → Element F → Type 0
  IsNamed (element id quote name f post) = (name ≢ none) × AreNamed post

  pub AreNamed : {F : Type 0} → Elements F → Type 0
  AreNamed nil = Unit
  AreNamed (cons e es) = IsNamed e × AreNamed es

abbrev name_size : Option (List ℕ) → ℕ
name_size none = 0
name_size (some name) = length name

-- A bound on what an element adds, of values of `limit` bytes.
unfoldable mutual
  pub room : {F : Type 0} → ℕ → Element F → ℕ
  room limit (element id quote name f post) = name_size name + 6 + limit + post_room limit post

  pub post_room : {F : Type 0} → ℕ → Elements F → ℕ
  post_room limit nil = 0
  post_room limit (cons e es) = room limit e + post_room limit es

-- The text of a member, behind the line.
member-IsLine :
    (p q : Printbuf) (ms : List Member) (quote : Bool) (name v : List ℕ)
    → IsLine p ms
    → Copied p ((opening ms quote name ++ v) ++ quote_mark quote) q
    → IsLine q (ms ++ (record { name = name; quoted = quote; value = v } ∷ []))
member-IsLine p q ms quote name v l x = record {
  ready = record { valid = x.valid; ends = x.ends };
  text =
      x.bytes
      ∙ ap (λ t. t ++ ((opening ms quote name ++ v) ++ quote_mark quote)) l.text
      ∙ ap (λ t. object_text ms ++ t) (append_assoc (opening ms quote name) v (quote_mark quote))
      ∙ opening-value ms quote name v;
}

-- A value in the buffer is no longer than the text.
positive :
    (v : List ℕ) (p : Printbuf) (a : List ℕ) (q : Printbuf)
    → Copied p (a ++ v) q
    → q.bpos < 2 ^ 31
    → 0 < length v
    → is_positive (length v) ≡ true
positive v p a q x h w = ground (arith, x.moved, length-append a v)

module _ (heap : Allocator) (never : (old : List ℕ) (n : ℕ) → heap.realloc old n ≢ none) where
  pub close_member-IsLine :
      (p q : Printbuf) (ms : List Member) (quote : Bool) (name v : List ℕ)
      → IsLine p ms
      → Copied p (opening ms quote name ++ v) q
      → q.bpos + 1 < 2 ^ 31
      → let (r, q1) = close_member heap p.bpos quote (length v % 2 ^ 32) q in
        (r ≡ value_size quote v) × IsLine q1 (ms ++ member_of quote name v) × (q1.bpos ≤ q.bpos + 1)
  unfolding close_member
  close_member-IsLine p q ms quote name [] l x h =
      let (ready, text) = reset-IsReady p q (opening ms quote name ++ []) l.ready x in
      (
        refl,
        subst (IsLine _) (sym (append-nil ms)) (record { ready = ready; text = text ∙ l.text }),
        omega (arith, x.moved),
      )
  close_member-IsLine p q ms true name (c ∷ cs) l x h =
      let e : length (c ∷ cs) % 2 ^ 32 ≡ length (c ∷ cs) =
        omega (arith, x.moved, length-append (opening ms true name) (c ∷ cs)) in
      let y =
        quote-Copied heap never p q (opening ms true name ++ (c ∷ cs)) true x
          (omega (arith, x.moved)) in
      rw (e, positive (c ∷ cs) p (opening ms true name) q x (omega arith) (omega arith))
        (
          omega (arith, x.moved, length-append (opening ms true name) (c ∷ cs)),
          member-IsLine p _ ms true name (c ∷ cs) l y,
          omega (
            arith,
            x.moved,
            y.moved,
            length-append (opening ms true name ++ (c ∷ cs)) (b'"' ∷ []),
          ),
        )
  close_member-IsLine p q ms false name (c ∷ cs) l x h =
      let e : length (c ∷ cs) % 2 ^ 32 ≡ length (c ∷ cs) =
        omega (arith, x.moved, length-append (opening ms false name) (c ∷ cs)) in
      let y =
        quote-Copied heap never p q (opening ms false name ++ (c ∷ cs)) false x
          (omega (arith, x.moved)) in
      rw (e, positive (c ∷ cs) p (opening ms false name) q x (omega arith) (omega arith))
        (omega arith, member-IsLine p q ms false name (c ∷ cs) l y, omega arith)
