-- ===== src/Field/Line.antt =====
-- The text of the line, a brace and members between commas: printing an element adds its members,
-- each with its name, and no member for an element without a value.
use f2k.Base.{
  ℕ, zero, suc, ◌≡◌, refl, sym, ap, ◌∙◌, Bool, true, false, List, [], ◌∷◌, ◌++◌, append-nil,
  append_assoc, arith, if◌then◌else◌, get_or, take,
}
use f2k.Printbuf.Append.{IsValid}
use f2k.Field.{same_string}
use f2k.Printbuf.{contents, Printbuf}

-- A member of the object: the value as it is printed, between quotes or not.
pub record Member : Type 0 where
  pub name : List ℕ
  pub quoted : Bool
  pub value : List ℕ

abbrev pub quote_mark : Bool → List ℕ
quote_mark quoted = if quoted then b'"' ∷ [] else []

unfoldable pub member_text : Member → List ℕ
member_text m =
    b'"' ∷ (m.name ++ (b'"' ∷ b':' ∷ (quote_mark m.quoted ++ (m.value ++ quote_mark m.quoted))))

unfoldable pub more_text : List Member → List ℕ
more_text [] = []
more_text (m ∷ ms) = b',' ∷ (member_text m ++ more_text ms)

-- The open object: a brace, and the members between commas. This is a text: a value is what its
-- function prints, and a function that does not escape may print a quote into it.
unfoldable pub object_text : List Member → List ℕ
object_text [] = b'{' ∷ []
object_text (m ∷ ms) = b'{' ∷ (member_text m ++ more_text ms)

-- A valid buffer with a NUL behind its text.
pub record IsReady (p : Printbuf) : Type 0 where
  pub valid : IsValid p
  pub ends : get_or p.buf p.bpos 1 ≡ 0

pub record IsLine (p : Printbuf) (ms : List Member) : Type 0 where
  pub ready : IsReady p
  pub text : contents p ≡ object_text ms

more_text-append : (ms ns : List Member) → more_text (ms ++ ns) ≡ more_text ms ++ more_text ns
unfolding more_text
more_text-append [] ns = refl
more_text-append (m ∷ ms) ns =
    ap (λ t. b',' ∷ (member_text m ++ t)) (more_text-append ms ns)
    ∙ ap (λ t. b',' ∷ t) (sym (append_assoc (member_text m) (more_text ms) (more_text ns)))

-- What a further member adds to the text.
pub object_text-snoc :
    (ms : List Member) (m : Member)
    → object_text (ms ++ (m ∷ []))
      ≡ object_text ms ++ (elim ms [ [] ↦ member_text m | _ ∷ _ ↦ b',' ∷ member_text m ])
unfolding object_text more_text
object_text-snoc [] m = ap (λ t. b'{' ∷ t) (append-nil (member_text m))
object_text-snoc (n ∷ ms) m =
    ap (λ t. b'{' ∷ (member_text n ++ t))
      (more_text-append ms (m ∷ [])
        ∙ ap (λ t. more_text ms ++ (b',' ∷ t)) (append-nil (member_text m)))
    ∙ ap (λ t. b'{' ∷ t) (sym (append_assoc (member_text n) (more_text ms) (b',' ∷ member_text m)))

-- `strcmp` tells an object without members from one with a member.
pub same_string-empty :
    (buf : List ℕ) (n : ℕ)
    → take n buf ≡ b'{' ∷ []
    → get_or buf n 1 ≡ 0
    → same_string buf (b'{' ∷ []) ≡ true
unfolding same_string
same_string-empty [] n t e = absurd (ground arith)
same_string-empty (b ∷ buf) zero t e = absurd (ground arith)
same_string-empty (b ∷ []) (suc n) t e = absurd (ground arith)
same_string-empty (b ∷ c ∷ buf) (suc zero) t e = ground arith
same_string-empty (b ∷ c ∷ buf) (suc (suc n)) t e = absurd (ground arith)

pub same_string-member :
    (buf : List ℕ) (n : ℕ) (rest : List ℕ)
    → take n buf ≡ b'{' ∷ b'"' ∷ rest
    → same_string buf (b'{' ∷ []) ≡ false
unfolding same_string
same_string-member [] zero rest t = absurd (ground arith)
same_string-member [] (suc n) rest t = absurd (ground arith)
same_string-member (b ∷ buf) zero rest t = absurd (ground arith)
same_string-member (b ∷ []) (suc zero) rest t = absurd (ground arith)
same_string-member (b ∷ []) (suc (suc n)) rest t = absurd (ground arith)
same_string-member (b ∷ c ∷ buf) (suc zero) rest t = absurd (ground arith)
same_string-member (b ∷ c ∷ buf) (suc (suc n)) rest t = ground arith
