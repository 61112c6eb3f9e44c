-- ===== src/Field/Open.antt =====
-- The steps of `printNetflowRecordWithTemplate` on the buffer: the text in front of a value, the
-- text behind it, and the way back when there is no value.
use f2k.Printbuf.Append.{
  take-memcpy_before, Copied-nil, get_or-memcpy, length-memcpy, memappend_fast-Copied, Copied-trans,
  Copied,
}
use f2k.Printbuf.{contents, printbuf_memappend_fast, memcpy, Printbuf, Allocator}
use f2k.Field.{same_string, open_member, int_of_size}
use f2k.Field.Line.{
  same_string-member, same_string-empty, object_text-snoc, IsLine, IsReady, object_text, quote_mark,
  member_text, Member,
}
use f2k.Base.{
  ℕ, ◌+◌, ◌^◌, ◌≤◌, ◌<◌, ◌≡◌, ◌≢◌, sym, ap, subst, ◌∙◌, Bool, true, false, none, List, [], ◌∷◌,
  ◌++◌, append-nil, append_assoc, arith, if◌then◌else◌, length, take, length-append, length-take,
  take-append, take-take,
}

abbrev pub comma : List Member → List ℕ
comma [] = []
comma (m ∷ ms) = b',' ∷ []

-- What stands in front of the value of the next member.
abbrev pub opening : List Member → Bool → List ℕ → List ℕ
opening ms quote name = comma ms ++ (b'"' ∷ (name ++ (b'"' ∷ b':' ∷ quote_mark quote)))

value-nested :
    (front name value : List ℕ) (quote : Bool)
    → (front ++ (b'"' ∷ (name ++ (b'"' ∷ b':' ∷ quote_mark quote)))) ++ (value ++ quote_mark quote)
      ≡ front ++ member_text (record { name = name; quoted = quote; value = value })
unfolding member_text
value-nested front name value quote =
    append_assoc front (b'"' ∷ (name ++ (b'"' ∷ b':' ∷ quote_mark quote)))
      (value ++ quote_mark quote)
    ∙ ap (λ t. front ++ (b'"' ∷ t))
        (append_assoc name (b'"' ∷ b':' ∷ quote_mark quote) (value ++ quote_mark quote))

pub opening-value :
    (ms : List Member) (quote : Bool) (name value : List ℕ)
    → object_text ms ++ (opening ms quote name ++ (value ++ quote_mark quote))
      ≡ object_text (ms ++ (record { name = name; quoted = quote; value = value } ∷ []))
opening-value [] quote name value =
    ap (λ t. object_text [] ++ t) (value-nested [] name value quote) ∙ sym (object_text-snoc [] _)
opening-value (m ∷ ms) quote name value =
    ap (λ t. object_text (m ∷ ms) ++ t) (value-nested (b',' ∷ []) name value quote)
    ∙ sym (object_text-snoc (m ∷ ms) _)

pub int_of_size_small : (n : ℕ) → n < 2 ^ 31 → int_of_size n ≡ n
unfolding int_of_size
int_of_size_small n h = ground arith

comma-short : (ms : List Member) → length (comma ms) ≤ 1
comma-short [] = omega arith
comma-short (m ∷ ms) = omega arith

pub length-opening :
    (ms : List Member) (quote : Bool) (name : List ℕ)
    → length (opening ms quote name) ≤ length name + 5
length-opening ms true name = omega (
  arith,
  length-append (comma ms) (b'"' ∷ (name ++ (b'"' ∷ b':' ∷ b'"' ∷ []))),
  length-append name (b'"' ∷ b':' ∷ b'"' ∷ []),
  comma-short ms,
)
length-opening ms false name = omega (
  arith,
  length-append (comma ms) (b'"' ∷ (name ++ (b'"' ∷ b':' ∷ []))),
  length-append name (b'"' ∷ b':' ∷ []),
  comma-short ms,
)

-- The way back to where an append began.
pub reset-IsReady :
    (p q : Printbuf) (b : List ℕ)
    → IsReady p
    → Copied p b q
    → let r : Printbuf = record q { buf = memcpy q.buf p.bpos (0 ∷ []); bpos = p.bpos } in
      IsReady r × (contents r ≡ contents p)
reset-IsReady p q b h x = (
  record {
    valid = record {
      whole = length-memcpy q.buf p.bpos (0 ∷ []) (omega (arith, x.moved, x.valid)) ∙ x.valid.whole;
      room = omega (arith, x.moved, x.valid);
      small = x.valid.small;
    };
    ends = get_or-memcpy q.buf p.bpos 0 1 (omega (arith, x.moved, x.valid));
  },
  take-memcpy_before q.buf p.bpos (0 ∷ []) (omega (arith, x.moved, x.valid))
      ∙ sym (take-take p.bpos q.bpos q.buf (omega (arith, x.moved)))
      ∙ ap (take p.bpos) x.bytes
      ∙ take-append p.bpos (contents p) b (omega (arith, length-take p.bpos p.buf, h.valid)),
)

module _ (heap : Allocator) (never : (old : List ℕ) (n : ℕ) → heap.realloc old n ≢ none) where
  -- One more append.
  pub appended :
      (p q : Printbuf) (a b : List ℕ)
      → Copied p a q
      → p.bpos + length a + length b < 2 ^ 60
      → Copied p (a ++ b) (printbuf_memappend_fast heap q b)
  appended p q a b x h =
      Copied-trans p q (printbuf_memappend_fast heap q b) a b x
        (memappend_fast-Copied heap q b never x.valid (omega (arith, x.moved)))

  comma-Copied :
      (p : Printbuf) (ms : List Member)
      → IsLine p ms
      → p.bpos + 1 < 2 ^ 60
      → Copied p
          (comma ms)
          (if same_string p.buf (b'{' ∷ []) then p else printbuf_memappend_fast heap p (b',' ∷ []))
  unfolding object_text member_text
  comma-Copied p [] l f =
      rw (same_string-empty p.buf p.bpos l.text l.ready.ends)
        (Copied-nil p l.ready.valid l.ready.ends)
  comma-Copied p (m ∷ ms) l f =
      rw (same_string-member p.buf p.bpos _ l.text)
        (memappend_fast-Copied heap p (b',' ∷ []) never l.ready.valid (omega arith))

  -- The quote on either side of a value.
  pub quote-Copied :
      (p q : Printbuf) (a : List ℕ) (quote : Bool)
      → Copied p a q
      → p.bpos + length a + 1 < 2 ^ 60
      → Copied p
          (a ++ quote_mark quote)
          (if quote then printbuf_memappend_fast heap q (b'"' ∷ []) else q)
  quote-Copied p q a true x h = appended p q a (b'"' ∷ []) x h
  quote-Copied p q a false x h = subst (λ t. Copied p t q) (sym (append-nil a)) x

  pub open_member-Copied :
      (p : Printbuf) (ms : List Member) (quote : Bool) (name : List ℕ)
      → IsLine p ms
      → p.bpos + length name + 5 < 2 ^ 60
      → Copied p (opening ms quote name) (open_member heap p quote name)
  unfolding open_member
  open_member-Copied p ms quote name l f =
      let add : Printbuf → List ℕ → Printbuf = printbuf_memappend_fast heap in
      let p0 = if same_string p.buf (b'{' ∷ []) then p else add p (b',' ∷ []) in
      let short : length (comma ms) ≤ 1 = comma-short ms in
      let x0 = comma-Copied p ms l (omega arith) in
      let x1 = appended p p0 (comma ms) (b'"' ∷ []) x0 (omega arith) in
      let t1 = comma ms ++ (b'"' ∷ []) in
      let l1 = length-append (comma ms) (b'"' ∷ []) in
      let x2 = appended p (add p0 (b'"' ∷ [])) t1 name x1 (omega arith) in
      let t2 = t1 ++ name in
      let l2 = length-append t1 name in
      let x3 = appended p (add (add p0 (b'"' ∷ [])) name) t2 (b'"' ∷ b':' ∷ []) x2 (omega arith) in
      let l3 = length-append t2 (b'"' ∷ b':' ∷ []) in
      let y =
        quote-Copied p (add (add (add p0 (b'"' ∷ [])) name) (b'"' ∷ b':' ∷ []))
          (t2 ++ (b'"' ∷ b':' ∷ [])) quote x3 (omega arith) in
      subst (λ t. Copied p t (open_member heap p quote name))
        (append_assoc (t2) (b'"' ∷ b':' ∷ []) (quote_mark quote)
          ∙ append_assoc t1 name (b'"' ∷ b':' ∷ quote_mark quote)
          ∙ append_assoc (comma ms) (b'"' ∷ []) (name ++ (b'"' ∷ b':' ∷ quote_mark quote)))
        y
