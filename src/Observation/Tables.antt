-- ===== src/Observation/Tables.antt =====
-- The search for an element in `ver9_templates`.
use f2k.Base.{
  ℕ, sym, ◌∙◌, suc, ◌-◌, ◌≤◌, ◌≡◌, ◌≢◌, ap, List, [], ◌∷◌, some, get_elem?, arith, Bool-cases, ◌==◌,
  inl, inr,
}
use f2k.Observation.{find_template_loop, find_template}

get_elem?-self : (e : ℕ) (es : List ℕ) (n : ℕ) → get_elem? (e ∷ es) (n - n) ≡ some e
get_elem?-self e es n = ap (get_elem? (e ∷ es)) nought
  where
    nought : n - n ≡ 0
    nought = omega arith

get_elem?-suc :
    (e : ℕ) (es : List ℕ) (n i : ℕ)
    → suc n ≤ i
    → get_elem? (e ∷ es) (i - n) ≡ get_elem? es (i - suc n)
get_elem?-suc e es n i h = ap (get_elem? (e ∷ es)) later
  where
    later : i - n ≡ suc (i - suc n)
    later = omega arith

find_template_loop_sound :
    (es : List ℕ) (n x i : ℕ)
    → find_template_loop es n x ≡ some i
    → (n ≤ i) × (get_elem? es (i - n) ≡ some x) × (x ≢ 0)
unfolding find_template_loop
find_template_loop_sound [] n x i h = ground arith
find_template_loop_sound (e ∷ es) n x i h = elim (Bool-cases (e == x)) [
  | inl same ↦ ground (arith, h, get_elem?-self e es n)
  | inr other ↦ ground (arith, find_template_loop_sound es (suc n) x i, get_elem?-suc e es n i)
]

-- What `find_template` finds is a place of the table that holds the identifier looked for, which is
-- not 0.
pub find_template_sound :
    (ver9_templates : List ℕ) (x i : ℕ)
    → find_template ver9_templates x ≡ some i
    → (get_elem? ver9_templates i ≡ some x) × (x ≢ 0)
unfolding find_template
find_template_sound table x i h =
    let (_, there, proper) = find_template_loop_sound table 0 x i h in
    (sym (ap (get_elem? table) origin) ∙ there, proper)
  where
    origin : i - 0 ≡ i
    origin = omega arith
