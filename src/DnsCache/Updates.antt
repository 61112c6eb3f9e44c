-- ===== src/DnsCache/Updates.antt =====
-- An entry's count changes with its references.
use f2k.DnsCache.Steps.{none-ne-some, refcount-some}
use f2k.DnsCache.Invariant.{
  count-cons_other, count-cons_self, addr_of, eq-or-ne, set_entry_other, set_entry_self, refcount,
  IsCounted, count,
}
use f2k.DnsCache.{set_entry, Entry, dns_cache_decref_elm, Cache, Avl}
use f2k.Base.{
  ℕ, ◌+◌, ◌-◌, ◌%◌, ◌^◌, ◌≤◌, ◌≡◌, ◌≢◌, refl, sym, ap, ◌∙◌, inl, inr, Option, none, some, List, ◌∷◌,
  arith, ◌==◌, Bool-cases,
}

module _ (avl : Avl) where
  open avl use {find}

  -- The invariant reads the tree through `find`, and the lists through their counts.
  pub IsCounted-same :
      (c d : Cache avl) (hs ks : List ℕ)
      → ((p : ℕ) → c.entries p ≡ d.entries p)
      → c.next ≡ d.next
      → ((a : ℕ) → find c.tree a ≡ find d.tree a)
      → ((p : ℕ) → count p c.lru ≡ count p d.lru)
      → ((p : ℕ) → count p hs ≡ count p ks)
      → IsCounted avl c hs
      → IsCounted avl d ks
  IsCounted-same c d hs ks he hn hf hl hh i = record {
    counted = λ p. ap refcount (sym (he p)) ∙ i.counted p ∙ omega (arith, hl p, hh p);
    used = λ p e pe. i.used p e (he p ∙ pe);
    once = λ p. omega (arith, i.once p, hl p);
    indexed = λ a p f.
        let (e, pe, ea, l) = i.indexed a p (hf a ∙ f) in (e, sym (he p) ∙ pe, ea, sym (hl p) ∙ l);
    listed = λ p e pe l. sym (hf e.addr) ∙ i.listed p e (he p ∙ pe) (hl p ∙ l);
    fresh = λ p h. sym (he p) ∙ i.fresh p (omega (arith, hn, h));
  }

  -- The entry of `p` becomes `o`, of the same address, with the references that there are then.
  pub update-IsCounted :
      (cache : Cache avl) (hs ks lru : List ℕ) (p b : ℕ) (e : Entry) (o : Option Entry)
      → cache.entries p ≡ some e
      → ((q : ℕ) → count q lru ≡ count q cache.lru)
      → refcount o ≡ count p cache.lru + count p ks
      → ((q : ℕ) → q ≢ p → count q ks ≡ count q hs)
      → ((d : Entry) → o ≡ some d → (1 ≤ d.refcnt) × (d.addr ≡ e.addr))
      → IsCounted avl cache hs
      → IsCounted avl
          (record cache { entries = set_entry cache.entries p o; bytes_out = b; lru = lru })
          ks
  update-IsCounted cache hs ks lru p b e o pe hl ho hk hd i = record {
    counted = counted;
    used = used;
    once = λ q. omega (arith, i.once q, hl q);
    indexed = indexed;
    listed = listed;
    fresh = fresh;
  }
    where
      now : (q : ℕ) → q ≡ p → set_entry cache.entries p o q ≡ o
      now q h = ap (set_entry cache.entries p o) h ∙ set_entry_self cache.entries p o

      still : (q : ℕ) → q ≢ p → set_entry cache.entries p o q ≡ cache.entries q
      still q h = set_entry_other cache.entries p q o h

      counted : (q : ℕ) → refcount (set_entry cache.entries p o q) ≡ count q lru + count q ks
      counted q = elim (eq-or-ne q p) [
        | inl h ↦
            ap refcount (now q h)
            ∙ ho
            ∙ ap (λ x. count x cache.lru + count x ks) (sym h)
            ∙ omega (arith, hl q)
        | inr h ↦ ap refcount (still q h) ∙ i.counted q ∙ omega (arith, hl q, hk q h)
      ]

      used : (q : ℕ) (d : Entry) → set_entry cache.entries p o q ≡ some d → 1 ≤ d.refcnt
      used q d qd = elim (eq-or-ne q p) [
        | inl h ↦ (hd d (sym (now q h) ∙ qd)).0
        | inr h ↦ i.used q d (sym (still q h) ∙ qd)
      ]

      indexed :
          (a q : ℕ)
          → find cache.tree a ≡ some q
          → (d : Entry) × (set_entry cache.entries p o q ≡ some d)
            × (d.addr ≡ a)
            × (count q lru ≡ 1)
      indexed a q f =
          let (d, qd, da, l) = i.indexed a q f in
          elim (eq-or-ne q p) [
            | inl h ↦
                let (n, on) =
                  refcount-some avl o (omega (arith, ho, l, ap (λ x. count x cache.lru) h)) in
                (
                  n,
                  now q h ∙ on,
                  (hd n on).1 ∙ ap addr_of (sym pe ∙ ap cache.entries (sym h) ∙ qd) ∙ da,
                  hl q ∙ l,
                )
            | inr h ↦ (d, still q h ∙ qd, da, hl q ∙ l)
          ]

      listed :
          (q : ℕ) (d : Entry)
          → set_entry cache.entries p o q ≡ some d
          → count q lru ≡ 1
          → find cache.tree d.addr ≡ some q
      listed q d qd l = elim (eq-or-ne q p) [
        | inl h ↦
            ap (find cache.tree) ((hd d (sym (now q h) ∙ qd)).1)
            ∙ i.listed p e pe (sym (hl p) ∙ ap (λ x. count x lru) (sym h) ∙ l)
            ∙ ap some (sym h)
        | inr h ↦ i.listed q d (sym (still q h) ∙ qd) (sym (hl q) ∙ l)
      ]

      fresh : (q : ℕ) → cache.next ≤ q → set_entry cache.entries p o q ≡ none
      fresh q n = elim (eq-or-ne q p) [
        | inl h ↦ absurd (none-ne-some avl (sym (i.fresh q n) ∙ ap cache.entries h ∙ pe))
        | inr h ↦ still q h ∙ i.fresh q n
      ]

  -- Giving a reference back.
  pub decref-IsCounted :
      (cache : Cache avl) (handed : List ℕ) (p : ℕ)
      → IsCounted avl cache (p ∷ handed)
      → count p handed ≤ 2 ^ 31
      → IsCounted avl (dns_cache_decref_elm avl cache p) handed
  unfolding dns_cache_decref_elm
  decref-IsCounted cache handed p i small =
      let (e, pe) =
        refcount-some avl (cache.entries p)
          (omega (arith, i.counted p, count-cons_self p handed)) in
      let r : e.refcnt ≡ count p cache.lru + 1 + count p handed =
        omega (arith, ap refcount pe, i.counted p, count-cons_self p handed) in
      let k : (e.refcnt + 2 ^ 32 - 1) % 2 ^ 32 ≡ count p cache.lru + count p handed =
        omega (arith, i.once p) in
      elim (Bool-cases (count p cache.lru + count p handed == 0)) [
        | inl last ↦
            rw (pe, dns_cache_decref_elm, k, last)
              (update-IsCounted cache (p ∷ handed) handed cache.lru p _ e none pe (λ q. refl)
                (ground arith) (λ q h. sym (count-cons_other q p handed h))
                (λ d h. absurd (none-ne-some avl h)) i)
        | inr more ↦
            rw (pe, dns_cache_decref_elm, k, more)
              (update-IsCounted cache (p ∷ handed) handed cache.lru p cache.bytes_out e
                (some (record e { refcnt = count p cache.lru + count p handed })) pe (λ q. refl)
                refl (λ q h. sym (count-cons_other q p handed h))
                (λ d h. (ground (arith, ap refcount h), sym (ap addr_of h))) i)
      ]
