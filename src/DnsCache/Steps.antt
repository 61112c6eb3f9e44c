-- ===== src/DnsCache/Steps.antt =====
-- Each step of the cache keeps the count of references.
use f2k.DnsCache.{Cache, forget, Entry, Avl}
use f2k.DnsCache.Invariant.{
  count-cons_self, eq-or-ne, count-cons_other, addr_of, refcount, IsCounted, count,
}
use f2k.Base.{
  ℕ, ◌+◌, ◌≤◌, ◌≡◌, ◌≢◌, refl, sym, ap, subst, ◌∙◌, inl, inr, Option, none, some, List, ◌∷◌, arith,
  ◌==◌, if◌then◌else◌,
}

-- `lru` without one `p`.
abbrev pub IsWithout : ℕ → List ℕ → List ℕ → Type 0
IsWithout p rest lru = (q : ℕ) → count q lru ≡ count q (p ∷ rest)

module _ (avl : Avl) where
  open avl use {find}

  pub none-ne-some {ℓ} : {A : Type ℓ} {x : A} → none ≢ some x
  none-ne-some e = ground arith

  pub some_inj : {x y : ℕ} → some x ≡ some y → x ≡ y
  some_inj e = ground arith

  pub count-cons : (q p : ℕ) (l : List ℕ) → count q (p ∷ l) ≡ (if p == q then 1 else 0) + count q l
  count-cons q p l = unfold count in refl

  -- A pointer with a reference is in memory.
  pub refcount-some : (o : Option Entry) → 1 ≤ refcount o → (e : Entry) × (o ≡ some e)
  refcount-some none h = absurd (omega arith)
  refcount-some (some e) h = (e, refl)

  pub forget-eq :
      (cache : Cache avl) (p : ℕ) (lru : List ℕ) (e : Entry)
      → cache.entries p ≡ some e
      → forget avl cache p lru ≡ record cache { lru = lru; tree = avl.remove cache.tree e.addr }
  unfolding forget
  forget-eq cache p lru e h = rw (h, forget) refl

  -- The database's reference of a forgotten entry becomes one to give back.
  pub forget-IsCounted :
      (cache : Cache avl) (handed lru : List ℕ) (p : ℕ)
      → IsCounted avl cache handed
      → count p cache.lru ≡ 1
      → IsWithout p lru cache.lru
      → IsCounted avl (forget avl cache p lru) (p ∷ handed)
  forget-IsCounted cache handed lru p i one out =
      subst (λ c. IsCounted avl c (p ∷ handed)) (sym (forget-eq cache p lru e pe))
        (record {
          counted =
              λ q. omega (arith, i.counted q, out q, count-cons q p lru, count-cons q p handed);
          used = i.used;
          once = λ q. omega (arith, i.once q, out q, count-cons q p lru);
          indexed = indexed;
          listed = listed;
          fresh = i.fresh;
        })
    where
      entry : (d : Entry) × (cache.entries p ≡ some d)
      entry = refcount-some (cache.entries p) (omega (arith, i.counted p, one))

      e : Entry
      e = entry.0

      pe : cache.entries p ≡ some e
      pe = entry.1

      same_entry : (q : ℕ) (d : Entry) → q ≡ p → cache.entries q ≡ some d → d.addr ≡ e.addr
      same_entry q d h qd = ap addr_of (sym qd ∙ ap cache.entries h ∙ pe)

      elsewhere : (q : ℕ) → q ≢ p → count q cache.lru ≡ count q lru
      elsewhere q h = out q ∙ count-cons_other q p lru h

      indexed :
          (a q : ℕ)
          → find (avl.remove cache.tree e.addr) a ≡ some q
          → (d : Entry) × (cache.entries q ≡ some d) × (d.addr ≡ a) × (count q lru ≡ 1)
      indexed a q f = elim (eq-or-ne a e.addr) [
        | inl same ↦ absurd (
            none-ne-some (
              sym (avl.find-remove_self cache.tree e.addr)
              ∙ subst (λ b. find (avl.remove cache.tree e.addr) b ≡ some q) same f))
        | inr other ↦
            let (d, qd, da, c) =
              i.indexed a q (sym (avl.find-remove cache.tree e.addr a other) ∙ f) in
            elim (eq-or-ne q p) [
              | inl h ↦ absurd (other (sym da ∙ same_entry q d h qd))
              | inr h ↦ (d, qd, da, sym (elsewhere q h) ∙ c)
            ]
      ]

      listed :
          (q : ℕ) (d : Entry)
          → cache.entries q ≡ some d
          → count q lru ≡ 1
          → find (avl.remove cache.tree e.addr) d.addr ≡ some q
      listed q d qd c = elim (eq-or-ne q p) [
        | inl h ↦
            absurd (omega (arith, c, one, out p, count-cons_self p lru, ap (λ x. count x lru) h))
        | inr h ↦
            let f = i.listed q d qd (elsewhere q h ∙ c) in
            elim (eq-or-ne d.addr e.addr) [
              | inl same ↦
                  let g = ap (find cache.tree) (sym same) ∙ f in
                  absurd (h (some_inj (sym g ∙ i.listed p e pe one)))
              | inr other ↦ avl.find-remove cache.tree e.addr d.addr other ∙ f
            ]
      ]
