-- ===== src/Escape/Lossless.antt =====
-- What the escaped form keeps of the text.
use f2k.Base.{
  ℕ, suc, ◌/◌, ◌%◌, ◌<◌, ◌≡◌, refl, ◌∙◌, ap, Bool, true, false, List, [], ◌∷◌, ◌++◌, some, arith,
  take, drop, All, ◌==◌, if◌then◌else◌, take-append-drop,
}
use f2k.Base.Bytes.{IsByte}
use f2k.Escape.{valid_utf8_char, escaped_char, hexbuf, memchr}
use f2k.Escape.Relation.{Escapes, done, percent, special, plain}
use f2k.Escape.Utf8.{
  followers, utf8_from, trails, valid_utf8_char_inv, utf8_from-valid, utf8_from-append,
}
use f2k.Escape.Safe.{Bare, plain-Bare, All-drop}

-- The character that an escape letter stands for, as a JSON reader takes it.
unfoldable pub json_unescape : ℕ → ℕ
json_unescape e =
    if e == b'b'
    then 8
    else if e == b'f'
    then 12
    else if e == b'n'
    then 10
    else if e == b'r'
    then 13
    else if e == b't'
    then 9
    else e

-- A JSON reader of a string's body; the flag says that a backslash has been read.
unfoldable pub unescape : Bool → List ℕ → List ℕ
unescape escape [] = []
unescape true (c ∷ cs) = json_unescape c ∷ unescape false cs
unescape false (c ∷ cs) = elim (c == 0x5c) [
  | true ↦ unescape true cs
  | false ↦ c ∷ unescape false cs
]

unescape-Bare :
    (front rest : List ℕ)
    → All Bare front
    → unescape false (front ++ rest) ≡ front ++ unescape false rest
unfolding unescape
unescape-Bare [] rest h = refl
unescape-Bare (c ∷ cs) rest h = ground (arith, unescape-Bare cs rest h.1)

escaped_char_one : (n c e : ℕ) → escaped_char n c ≡ some e → (n ≡ 1) × (json_unescape e ≡ c)
unfolding escaped_char memchr json_unescape
escaped_char_one n c e h = ground arith

unescape-special :
    (c e : ℕ) (out : List ℕ)
    → json_unescape e ≡ c
    → unescape false (0x5c ∷ e ∷ out) ≡ c ∷ unescape false out
unfolding unescape
unescape-special c e out h = rw h

-- What stands behind the first character of a text of whole characters is one as well.
utf8_from-drop :
    (c n : ℕ) (cs : List ℕ)
    → All IsByte (c ∷ cs)
    → utf8_from 0 (c ∷ cs) ≡ true
    → valid_utf8_char (c ∷ cs) ≡ some n
    → utf8_from 0 (drop n (c ∷ cs)) ≡ true
utf8_from-drop c n cs h u ok =
    let (k, ok', r) = utf8_from-valid c cs h u in let e : n ≡ suc k = ground arith in rw e r

utf8_from-ascii : (c : ℕ) (t : List ℕ) → c < 128 → utf8_from 0 (c ∷ t) ≡ utf8_from 0 t
unfolding utf8_from followers
utf8_from-ascii c t h = ground arith

utf8_from-lead :
    (c k : ℕ) (cs out : List ℕ)
    → followers c ≡ some k
    → trails k cs ≡ true
    → utf8_from 0 (c ∷ (take k cs ++ out)) ≡ utf8_from 0 out
unfolding utf8_from
utf8_from-lead c k cs out f t = rw (f, utf8_from) (utf8_from-append k cs out t)

hexbuf-lt : (d : ℕ) → d < 16 → hexbuf d < 128
hexbuf-lt d h = ground arith

escaped_char-lt : (n c e : ℕ) → escaped_char n c ≡ some e → e < 128
unfolding escaped_char memchr
escaped_char-lt n c e h = ground arith

-- A text of whole characters comes back from a JSON reader as it was.
pub unescape-Escapes :
    {s out : List ℕ} → All IsByte s → utf8_from 0 s ≡ true → Escapes s out → unescape false out ≡ s
unescape-Escapes h u done = unfold unescape in refl
unescape-Escapes h u (percent c {cs} bad d) =
    let (k, ok, r) = utf8_from-valid c cs h u in absurd (ground arith)
unescape-Escapes h u (special c n e {cs} {out} ok marked d) =
    let (one, back) = escaped_char_one n c e marked in
    unescape-special c e out back
    ∙ ap (λ r. c ∷ r) (unescape-Escapes h.1 (rw one at (utf8_from-drop c n cs h u ok)) d)
unescape-Escapes h u (plain c n {cs} {out} ok stays d) =
    unescape-Bare (take n (c ∷ cs)) out (plain-Bare c n cs h ok stays)
    ∙ ap (λ r. take n (c ∷ cs) ++ r)
        (unescape-Escapes (All-drop n (c ∷ cs) h) (utf8_from-drop c n cs h u ok) d)
    ∙ take-append-drop n (c ∷ cs)

-- Whatever the bytes of a text, its escaped form consists of whole characters.
pub Escapes-utf8 : {s out : List ℕ} → All IsByte s → Escapes s out → utf8_from 0 out ≡ true
Escapes-utf8 h done = unfold utf8_from in refl
Escapes-utf8 h (percent c {out = out} bad d) =
    utf8_from-ascii b'%' (hexbuf (c / 16) ∷ hexbuf (c % 16) ∷ out) (omega arith)
    ∙ utf8_from-ascii (hexbuf (c / 16)) (hexbuf (c % 16) ∷ out) (hexbuf-lt (c / 16) (omega arith))
    ∙ utf8_from-ascii (hexbuf (c % 16)) out (hexbuf-lt (c % 16) (omega arith))
    ∙ Escapes-utf8 h.1 d
Escapes-utf8 h (special c n e {out = out} ok marked d) =
    utf8_from-ascii 0x5c (e ∷ out) (omega arith)
    ∙ utf8_from-ascii e out (escaped_char-lt n c e marked)
    ∙ Escapes-utf8 h.1 d
Escapes-utf8 h (plain c n {cs} {out} ok stays d) =
    let (k, e, f, t) = valid_utf8_char_inv c cs n h ok in
    rw e (utf8_from-lead c k cs out f t) ∙ Escapes-utf8 (All-drop n (c ∷ cs) h) d
