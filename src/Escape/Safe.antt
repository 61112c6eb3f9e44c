-- ===== src/Escape/Safe.antt =====
-- The escaped form inside a JSON string.
use f2k.Base.{
  ℕ, zero, suc, ◌/◌, ◌%◌, ◌<◌, ◌≡◌, refl, ◌∙◌, Bool, true, false, not, ◌&&◌, ◌||◌, List, [], ◌∷◌,
  ◌++◌, none, some, arith, take, drop, All, ◌==◌, if◌then◌else◌,
}
use f2k.Base.Bytes.{IsByte}
use f2k.Escape.{valid_utf8_char, escaped_char, hexbuf, memchr}
use f2k.Escape.Relation.{Escapes, done, percent, special, plain}
use f2k.Escape.Utf8.{followers, trails, valid_utf8_char_inv}

-- The letters that may stand behind a backslash, but for the `u` of \uXXXX.
unfoldable pub is_json_escape : ℕ → Bool
is_json_escape c =
    c == 0x22
    || c == 0x5c
    || c == 0x2f
    || c == b'b'
    || c == b'f'
    || c == b'n'
    || c == b'r'
    || c == b't'

-- A reader of a string's body: it never meets a bare quote, nor a backslash with no escape letter
-- behind it, and does not end inside an escape. The flag says that a backslash has been read.
unfoldable pub in_string : Bool → List ℕ → Bool
in_string escape [] = not escape
in_string true (c ∷ cs) = is_json_escape c && in_string false cs
in_string false (c ∷ cs) = if c == 0x22 then false else in_string (c == 0x5c) cs

-- Neither a quote nor a backslash.
abbrev pub Bare : ℕ → Type 0
Bare c = (c == 0x22 ≡ false) × (c == 0x5c ≡ false)

in_string-Bare :
    (front rest : List ℕ) → All Bare front → in_string false (front ++ rest) ≡ in_string false rest
unfolding in_string
in_string-Bare [] rest h = refl
in_string-Bare (c ∷ cs) rest h = ground (arith, in_string-Bare cs rest h.1)

trails-Bare : (k : ℕ) (s : List ℕ) → trails k s ≡ true → All Bare (take k s)
unfolding trails
trails-Bare zero s h = tt
trails-Bare (suc k) [] h = tt
trails-Bare (suc k) (b ∷ s) h = ground (arith, trails-Bare k s)

-- The letter that `escaped_char` gives is an escape letter; a lone byte with none is bare.
escaped_char-is_json_escape : (n c e : ℕ) → escaped_char n c ≡ some e → is_json_escape e ≡ true
unfolding escaped_char memchr is_json_escape
escaped_char-is_json_escape n c e h = ground arith

escaped_char-Bare : (c : ℕ) → escaped_char 1 c ≡ none → Bare c
unfolding escaped_char memchr
escaped_char-Bare c h = ground arith

lead-Bare : (c k : ℕ) → followers c ≡ some (suc k) → Bare c
unfolding followers
lead-Bare c k e = ground arith

pub plain-Bare :
    (c n : ℕ) (cs : List ℕ)
    → All IsByte (c ∷ cs)
    → valid_utf8_char (c ∷ cs) ≡ some n
    → escaped_char n c ≡ none
    → All Bare (take n (c ∷ cs))
plain-Bare c n cs h ok stays = front (valid_utf8_char_inv c cs n h ok)
  where
    front :
        (k : ℕ) × (n ≡ suc k) × (followers c ≡ some k) × (trails k cs ≡ true)
        → All Bare (take n (c ∷ cs))
    front (zero, e, f, t) = rw e (escaped_char-Bare c (rw e at stays), tt)
    front (suc k, e, f, t) = rw e (lead-Bare c k f, trails-Bare (suc k) cs t)

hexbuf-Bare : (d : ℕ) → d < 16 → Bare (hexbuf d)
hexbuf-Bare d h = ground arith

pub All-drop : (n : ℕ) (s : List ℕ) → All IsByte s → All IsByte (drop n s)
All-drop zero s h = h
All-drop (suc n) [] h = tt
All-drop (suc n) (c ∷ s) h = All-drop n s h.1

escape-in_string :
    (e : ℕ) (out : List ℕ)
    → is_json_escape e ≡ true
    → in_string false (0x5c ∷ e ∷ out) ≡ in_string false out
unfolding in_string
escape-in_string e out h = rw h

-- Whatever the bytes of a text, no quote in its escaped form can end a JSON string, and no backslash
-- of the text can start an escape of its own.
pub Escapes-in_string : {s out : List ℕ} → All IsByte s → Escapes s out → in_string false out ≡ true
Escapes-in_string h done = unfold in_string in refl
Escapes-in_string h (percent c {out = out} bad d) =
    in_string-Bare (b'%' ∷ hexbuf (c / 16) ∷ hexbuf (c % 16) ∷ []) out
      ((refl, refl), (hexbuf-Bare (c / 16) (omega arith), (hexbuf-Bare (c % 16) (omega arith), tt)))
    ∙ Escapes-in_string h.1 d
Escapes-in_string h (special c n e {out = out} ok marked d) =
    escape-in_string e out (escaped_char-is_json_escape n c e marked) ∙ Escapes-in_string h.1 d
Escapes-in_string h (plain c n {cs} {out} ok stays d) =
    in_string-Bare (take n (c ∷ cs)) out (plain-Bare c n cs h ok stays)
    ∙ Escapes-in_string (All-drop n (c ∷ cs) h) d
