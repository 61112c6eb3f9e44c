-- ===== src/Field/Domain.antt =====
-- `print_http_l2_domain` of src/export.c: it ends, and prints a part of the host name.
use f2k.Field.Http.{
  buffer_is_ip, https_header, http_header, starts_with, last_labels, l2_domain, split_last,
  skip_char, before_first,
}
use f2k.Base.{
  ℕ, zero, suc, ◌≤◌, ◌<◌, ◌≡◌, refl, sym, ap, subst, ◌∙◌, inl, inr, Bool, true, some, List, [], ◌∷◌,
  ◌++◌, append-nil, append_assoc, arith, ◌==◌, Bool-cases, Option-cases, length, take, drop,
  length-append, length-drop, take-append-drop,
}

-- `d` stands in `s`.
abbrev pub IsPart : List ℕ → List ℕ → Type 0
IsPart d s = (front : List ℕ) × (back : List ℕ) × (front ++ (d ++ back) ≡ s)

-- `d` ends `s`.
abbrev pub IsSuffix : List ℕ → List ℕ → Type 0
IsSuffix d s = (front : List ℕ) × (front ++ d ≡ s)

IsSuffix-cons : (b : ℕ) (d s : List ℕ) → IsSuffix d s → IsSuffix d (b ∷ s)
IsSuffix-cons b d s (front, e) = (b ∷ front, ap (λ t. b ∷ t) e)

IsPart-trans : (d t s : List ℕ) → IsPart d t → IsPart t s → IsPart d s
IsPart-trans d t s (f, b, e) (g, c, e1) = (
  g ++ f,
  b ++ c,
  append_assoc g f (d ++ (b ++ c))
      ∙ ap (λ u. g ++ u)
          (ap (λ u. f ++ u) (sym (append_assoc d b c))
            ∙ sym (append_assoc f (d ++ b) c)
            ∙ ap (λ u. u ++ c) e)
      ∙ e1,
)

IsSuffix-trans : (d t s : List ℕ) → IsSuffix d t → IsSuffix t s → IsSuffix d s
IsSuffix-trans d t s (f, e) (g, e1) = (g ++ f, append_assoc g f d ∙ ap (λ u. g ++ u) e ∙ e1)

suffix-IsPart : (d s : List ℕ) → IsSuffix d s → IsPart d s
suffix-IsPart d s (f, e) = (f, [], ap (λ t. f ++ t) (append-nil d) ∙ e)

pub length-IsPart : (d s : List ℕ) → IsPart d s → length d ≤ length s
length-IsPart d s (f, b, e) =
    subst (λ t. length d ≤ length t) e (omega (arith, length-append f (d ++ b), length-append d b))

-- What stands in front of the first `c`, and is shorter.
before_first-prefix :
    (c : ℕ) (s front : List ℕ)
    → before_first c s ≡ some front
    → (back : List ℕ) × (front ++ (c ∷ back) ≡ s)
unfolding before_first
before_first-prefix c [] front e = absurd (ground arith)
before_first-prefix c (b ∷ bs) front e = elim (Bool-cases (b == c)) [
  | inl here ↦
      let e0 : [] ≡ front = ground arith in
      let eb : b ≡ c = ground arith in
      (bs, subst (λ f. f ++ (c ∷ bs) ≡ b ∷ bs) e0 (ap (λ x. x ∷ bs) (sym eb)))
  | inr other ↦ elim (Option-cases (before_first c bs)) [
    | inl fails ↦ absurd (ground arith)
    | inr (f, found) ↦
        let (back, e1) = before_first-prefix c bs f found in
        let e0 : b ∷ f ≡ front = ground arith in
        (back, subst (λ g. g ++ (c ∷ back) ≡ b ∷ bs) e0 (ap (λ u. b ∷ u) e1))
  ]
]

skip_char-IsSuffix : (c : ℕ) (s : List ℕ) → IsSuffix (skip_char c s) s
unfolding skip_char
skip_char-IsSuffix c [] = ([], refl)
skip_char-IsSuffix c (b ∷ bs) = elim (Bool-cases (b == c)) [
  | inl same ↦ rw (same, skip_char) (IsSuffix-cons b (skip_char c bs) bs (skip_char-IsSuffix c bs))
  | inr other ↦ rw (other, skip_char) ([], refl)
]

split_last-append :
    (c : ℕ) (s front back : List ℕ) → split_last c s ≡ some (front, back) → front ++ back ≡ s
unfolding split_last
split_last-append c [] front back e = absurd (ground arith)
split_last-append c (b ∷ bs) front back e = elim (Option-cases (split_last c bs)) [
  | inl fails ↦ elim (Bool-cases (b == c)) [
    | inl here ↦
        let e0 : [] ≡ front = ground arith in
        let e1 : b ∷ bs ≡ back = ground arith in subst (λ f. f ++ back ≡ b ∷ bs) e0 (sym e1)
    | inr other ↦ absurd (ground arith)
  ]
  | inr ((f, k), found) ↦
      let e0 : b ∷ f ≡ front = ground arith in
      let e1 : k ≡ back = ground arith in
      subst (λ g. g ++ back ≡ b ∷ bs) e0
        (ap (λ u. b ∷ u) (subst (λ u. f ++ u ≡ bs) e1 (split_last-append c bs f k found)))
]

last_labels-IsSuffix : (hostname : List ℕ) → IsSuffix (last_labels hostname) hostname
unfolding last_labels
last_labels-IsSuffix hostname = elim (Option-cases (split_last b'.' hostname)) [
  | inl none_at_all ↦ rw (none_at_all, last_labels) (skip_char-IsSuffix b'.' hostname)
  | inr ((front, l1), found) ↦ elim (Option-cases (split_last b'.' front)) [
    | inl one ↦ rw (found, last_labels, one) (skip_char-IsSuffix b'.' hostname)
    | inr ((front2, l2), found2) ↦
        let e1 = split_last-append b'.' hostname front l1 found in
        let e2 = split_last-append b'.' front front2 l2 found2 in
        rw (found, last_labels, found2)
          (IsSuffix-trans (skip_char b'.' (l2 ++ l1)) (l2 ++ l1) hostname
            (skip_char-IsSuffix b'.' (l2 ++ l1))
            (front2, sym (append_assoc front2 l2 l1) ∙ ap (λ u. u ++ l1) e2 ∙ e1))
  ]
]

starts_with-le : (cs s : List ℕ) → starts_with cs s ≡ true → length cs ≤ length s
unfolding starts_with
starts_with-le [] s e = omega arith
starts_with-le (c ∷ cs) [] e = absurd (ground arith)
starts_with-le (c ∷ cs) (b ∷ bs) e = ground (arith, starts_with-le cs bs)

module _ (is_ip_text : List ℕ → Bool) where
  -- With fuel for each byte of the name, and one to stop, ends, and what it prints
  -- stands in the name.
  pub l2_domain-IsPart :
      (fuel : ℕ) (hostname : List ℕ)
      → length hostname < fuel
      → (d : List ℕ) × (l2_domain is_ip_text fuel hostname ≡ some d) × IsPart d hostname
  unfolding l2_domain
  l2_domain-IsPart zero hostname h = absurd (omega arith)
  l2_domain-IsPart (suc fuel) hostname h = elim (Bool-cases (starts_with http_header hostname)) [
    | inl e ↦
        let (d, e1, part) =
          l2_domain-IsPart fuel (drop 7 hostname)
            (omega (arith, length-drop 7 hostname, starts_with-le http_header hostname e)) in
        rw (e, l2_domain)
          (
            d,
            e1,
            IsPart-trans d (drop 7 hostname) hostname part
                (suffix-IsPart _ _ (take 7 hostname, take-append-drop 7 hostname)),
          )
    | inr e ↦ elim (Bool-cases (starts_with https_header hostname)) [
      | inl e1 ↦
          let (d, e2, part) =
            l2_domain-IsPart fuel (drop 8 hostname)
              (omega (arith, length-drop 8 hostname, starts_with-le https_header hostname e1)) in
          rw (e, l2_domain, e1)
            (
              d,
              e2,
              IsPart-trans d (drop 8 hostname) hostname part
                  (suffix-IsPart _ _ (take 8 hostname, take-append-drop 8 hostname)),
            )
      | inr e1 ↦ elim (Option-cases (before_first b'/' hostname)) [
        | inl e2 ↦ elim (Bool-cases (buffer_is_ip is_ip_text hostname)) [
          | inl e3 ↦ rw (e, l2_domain, e1, e2, e3) (hostname, refl, suffix-IsPart _ _ ([], refl))
          | inr e3 ↦
              rw (e, l2_domain, e1, e2, e3)
                (last_labels hostname, refl, suffix-IsPart _ _ (last_labels-IsSuffix hostname))
        ]
        | inr (no_url, e2) ↦
            let (back, e3) = before_first-prefix b'/' hostname no_url e2 in
            let part : IsPart no_url hostname = ([], b'/' ∷ back, e3) in
            let (d, e4, part1) =
              l2_domain-IsPart fuel no_url
                (omega (arith, length-append no_url (b'/' ∷ back), ap length e3)) in
            rw (e, l2_domain, e1, e2) (d, e4, IsPart-trans d no_url hostname part1 part)
      ]
    ]
  ]
