-- ===== src/DnsCache/Add.antt =====
-- A new entry of the cache, with its references.
use f2k.DnsCache.Steps.{none-ne-some, some_inj}
use f2k.DnsCache.Invariant.{
  addr_of, set_entry_other, eq-or-ne, count-nil, set_entry_self, count-cons_self, count-cons_other,
  refcount, count-append, count, IsCounted,
}
use f2k.DnsCache.{add_entry, set_entry, Entry, Cache, Avl}
use f2k.Base.{
  ℕ, ◌+◌, ◌≤◌, ◌≡◌, ◌≢◌, sym, ap, ◌∙◌, inl, inr, Option, none, some, List, [], ◌∷◌, ◌++◌, arith,
}

module _ (avl : Avl) where
  open avl use {find}

  module _ (cache : Cache avl) (handed : List ℕ) (addr : ℕ) (name : List ℕ) (now : ℕ)
      (i : IsCounted avl cache handed) (unknown : find cache.tree addr ≡ none) where
    abbrev new_entry : Entry
    new_entry = record { addr = addr; name = name; last_checked = now; refcnt = 2 }

    abbrev entries1 : ℕ → Option Entry
    entries1 = set_entry cache.entries cache.next (some new_entry)

    abbrev lru1 : List ℕ
    lru1 = cache.lru ++ (cache.next ∷ [])

    unused : cache.entries cache.next ≡ none
    unused = i.fresh cache.next (omega arith)

    unreferenced : (count cache.next cache.lru ≡ 0) × (count cache.next handed ≡ 0)
    unreferenced =
        let e : 0 ≡ count cache.next cache.lru + count cache.next handed =
          sym (ap refcount unused) ∙ i.counted cache.next in
        (omega (arith, e), omega (arith, e))

    last_other : (q : ℕ) → q ≢ cache.next → count q lru1 ≡ count q cache.lru
    last_other q h = omega (
      arith,
      count-append q cache.lru (cache.next ∷ []),
      count-cons_other q cache.next [] h,
      count-nil q,
    )

    last_self : count cache.next lru1 ≡ 1
    last_self = omega (
      arith,
      count-append cache.next cache.lru (cache.next ∷ []),
      unreferenced,
      count-cons_self cache.next [],
      count-nil cache.next,
    )

    now_at : (q : ℕ) → q ≡ cache.next → entries1 q ≡ some new_entry
    now_at q h = ap entries1 h ∙ set_entry_self cache.entries cache.next (some new_entry)

    still : (q : ℕ) → q ≢ cache.next → entries1 q ≡ cache.entries q
    still q h = set_entry_other cache.entries cache.next q (some new_entry) h

    counted : (q : ℕ) → refcount (entries1 q) ≡ count q lru1 + count q (cache.next ∷ handed)
    counted q = elim (eq-or-ne q cache.next) [
      | inl h ↦
          let two : 2 ≡ count cache.next lru1 + count cache.next (cache.next ∷ handed) =
            omega (arith, last_self, count-cons_self cache.next handed, unreferenced) in
          ap refcount (now_at q h)
          ∙ two
          ∙ ap (λ x. count x lru1 + count x (cache.next ∷ handed)) (sym h)
      | inr h ↦
          let sums : count q cache.lru + count q handed
              ≡ count q lru1 + count q (cache.next ∷ handed) =
            omega (arith, last_other q h, count-cons_other q cache.next handed h) in
          ap refcount (still q h) ∙ i.counted q ∙ sums
    ]

    used : (q : ℕ) (d : Entry) → entries1 q ≡ some d → 1 ≤ d.refcnt
    used q d qd = elim (eq-or-ne q cache.next) [
      | inl h ↦ omega (arith, ap refcount (sym (now_at q h) ∙ qd))
      | inr h ↦ i.used q d (sym (still q h) ∙ qd)
    ]

    once : (q : ℕ) → count q lru1 ≤ 1
    once q = elim (eq-or-ne q cache.next) [
      | inl h ↦ omega (arith, last_self, ap (λ x. count x lru1) h)
      | inr h ↦ omega (arith, last_other q h, i.once q)
    ]

    indexed :
        (a q : ℕ)
        → find (avl.insert cache.tree addr cache.next) a ≡ some q
        → (d : Entry) × (entries1 q ≡ some d) × (d.addr ≡ a) × (count q lru1 ≡ 1)
    indexed a q f = elim (eq-or-ne a addr) [
      | inl same ↦
          let h : q ≡ cache.next = some_inj avl (
            sym f
            ∙ ap (find (avl.insert cache.tree addr cache.next)) same
            ∙ avl.find-insert_self cache.tree addr cache.next) in
          (new_entry, now_at q h, sym same, ap (λ x. count x lru1) h ∙ last_self)
      | inr other ↦
          let (d, qd, da, l) =
            i.indexed a q (sym (avl.find-insert cache.tree addr cache.next a other) ∙ f) in
          elim (eq-or-ne q cache.next) [
            | inl h ↦ absurd (none-ne-some avl (sym unused ∙ ap cache.entries (sym h) ∙ qd))
            | inr h ↦ (d, still q h ∙ qd, da, last_other q h ∙ l)
          ]
    ]

    listed :
        (q : ℕ) (d : Entry)
        → entries1 q ≡ some d
        → count q lru1 ≡ 1
        → find (avl.insert cache.tree addr cache.next) d.addr ≡ some q
    listed q d qd l = elim (eq-or-ne q cache.next) [
      | inl h ↦
          let e : addr ≡ d.addr = ap addr_of (sym (now_at q h) ∙ qd) in
          ap (find (avl.insert cache.tree addr cache.next)) (sym e)
          ∙ avl.find-insert_self cache.tree addr cache.next
          ∙ ap some (sym h)
      | inr h ↦
          let f = i.listed q d (sym (still q h) ∙ qd) (sym (last_other q h) ∙ l) in
          elim (eq-or-ne d.addr addr) [
            | inl same ↦
                absurd (none-ne-some avl (sym unknown ∙ ap (find cache.tree) (sym same) ∙ f))
            | inr other ↦ avl.find-insert cache.tree addr cache.next d.addr other ∙ f
          ]
    ]

    fresh : (q : ℕ) → cache.next + 1 ≤ q → entries1 q ≡ none
    fresh q n = still q (λ h. absurd (omega (arith, h, n))) ∙ i.fresh q (omega (arith, n))

    -- A new entry, of an address that the database does not have.
    pub add_entry-IsCounted :
        IsCounted avl (add_entry avl cache addr name now) (cache.next ∷ handed)
    unfolding add_entry
    add_entry-IsCounted = record {
      counted = counted;
      used = used;
      once = once;
      indexed = indexed;
      listed = listed;
      fresh = fresh;
    }
