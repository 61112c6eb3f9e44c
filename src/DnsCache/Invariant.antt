-- ===== src/DnsCache/Invariant.antt =====
-- The references of each entry are counted: an entry is in memory while something refers to it.
use f2k.DnsCache.{Returned, null, invalid, elm, set_entry, Cache, Avl, Entry}
use f2k.Base.{
  ℕ, ◌+◌, ◌≤◌, ◌≡◌, ◌≢◌, refl, ap, ◌⊎◌, inl, inr, Option, none, some, List, [], ◌∷◌, ◌++◌, arith,
  ◌==◌, if◌then◌else◌, Bool-cases, ==_iff,
}

unfoldable pub count : ℕ → List ℕ → ℕ
count p [] = 0
count p (q ∷ qs) = (if q == p then 1 else 0) + count p qs

-- The count of references, 0 for an entry that is not in memory.
abbrev pub refcount : Option Entry → ℕ
refcount none = 0
refcount (some e) = e.refcnt

pub eq-or-ne : (a b : ℕ) → (a ≡ b) ⊎ (a ≢ b)
eq-or-ne a b = elim (Bool-cases (a == b)) [
  | inl e ↦ inl ((==_iff a b).0 e)
  | inr e ↦ inr (λ h. absurd (ground arith))
]

pub count-cons_self : (p : ℕ) (l : List ℕ) → count p (p ∷ l) ≡ 1 + count p l
unfolding count
count-cons_self p l = ground arith

pub count-cons_other : (q p : ℕ) (l : List ℕ) → q ≢ p → count q (p ∷ l) ≡ count q l
unfolding count
count-cons_other q p l h = ground arith

pub count_cons : (q p : ℕ) (l : List ℕ) → count q (p ∷ l) ≡ (if p == q then 1 else 0) + count q l
unfolding count
count_cons q p l = refl

pub count-nil : (q : ℕ) → count q [] ≡ 0
unfolding count
count-nil q = refl

pub count-append : (q : ℕ) (l m : List ℕ) → count q (l ++ m) ≡ count q l + count q m
unfolding count
count-append q [] m = omega arith
count-append q (x ∷ l) m = omega (arith, count-append q l m)

pub set_entry_self :
    (entries : ℕ → Option Entry) (p : ℕ) (o : Option Entry) → set_entry entries p o p ≡ o
unfolding set_entry
set_entry_self entries p o = ap (λ b. if b then o else entries p) ((==_iff p p).1 refl)

pub set_entry_other :
    (entries : ℕ → Option Entry) (p q : ℕ) (o : Option Entry)
    → q ≢ p
    → set_entry entries p o q ≡ entries q
unfolding set_entry
set_entry_other entries p q o h = elim (Bool-cases (q == p)) [
  | inl e ↦ absurd (h ((==_iff q p).0 e))
  | inr e ↦ ap (λ b. if b then o else entries q) e
]

-- The elements handed out, with what a call returns.
unfoldable pub handing : Returned → List ℕ → List ℕ
handing null handed = handed
handing invalid handed = handed
handing (elm p) handed = p ∷ handed

-- The address of an entry, of a pointer that is in memory.
abbrev pub addr_of : Option Entry → ℕ
addr_of none = 0
addr_of (some e) = e.addr

module _ (avl : Avl) where
  open avl use {find}

  -- `handed` are the elements handed out and not yet given back, each as often as it was.
  pub record IsCounted (cache : Cache avl) (handed : List ℕ) : Type 0 where
    pub counted : (p : ℕ) → refcount (cache.entries p) ≡ count p cache.lru + count p handed
    pub used : (p : ℕ) (e : Entry) → cache.entries p ≡ some e → 1 ≤ e.refcnt
    pub once : (p : ℕ) → count p cache.lru ≤ 1
    pub indexed :
        (a p : ℕ)
        → find cache.tree a ≡ some p
        → (e : Entry) × (cache.entries p ≡ some e) × (e.addr ≡ a) × (count p cache.lru ≡ 1)
    pub listed :
        (p : ℕ) (e : Entry)
        → cache.entries p ≡ some e
        → count p cache.lru ≡ 1
        → find cache.tree e.addr ≡ some p
    pub fresh : (p : ℕ) → cache.next ≤ p → cache.entries p ≡ none
