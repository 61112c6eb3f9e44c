-- ===== src/DnsCache/Calls.antt =====
-- The calls of the cache keep the count of references.
use f2k.DnsCache.Add.{add_entry-IsCounted}
use f2k.DnsCache.Updates.{update-IsCounted, IsCounted-same, decref-IsCounted}
use f2k.DnsCache.Steps.{forget-eq, forget-IsCounted, IsWithout}
use f2k.DnsCache.Invariant.{
  addr_of, refcount, handing, count-append, count_cons, count-cons_other, count-nil,
  count-cons_self, eq-or-ne, IsCounted, count,
}
use f2k.DnsCache.{
  get_found, dns_cache_get_elm, dns_cache_save_elm, Entry, size_at, add_entry, forget, evict,
  drop_old, Cache, dns_cache_decref_elm, Avl, lru_remove,
}
use f2k.Base.{
  ℕ, ◌+◌, ◌-◌, ◌%◌, ◌^◌, ◌≤◌, ◌<◌, ◌≡◌, ◌≢◌, refl, sym, ap, subst, ◌∙◌, inl, inr, Bool, some, List,
  [], ◌∷◌, ◌++◌, arith, ltb, leb, ◌==◌, Bool-cases, Option-cases, ==_iff, length,
}

lru_remove-same : (p x : ℕ) (l : List ℕ) → x ≡ p → lru_remove p (x ∷ l) ≡ l
unfolding lru_remove
lru_remove-same p x l h = rw ((==_iff x p).1 h) refl

lru_remove-other : (p x : ℕ) (l : List ℕ) → x ≢ p → lru_remove p (x ∷ l) ≡ x ∷ lru_remove p l
unfolding lru_remove
lru_remove-other p x l h = elim (Bool-cases (x == p)) [
  | inl e ↦ absurd (h ((==_iff x p).0 e))
  | inr e ↦ rw (e) refl
]

-- Taking one `p` out of a list that has it.
pub lru_remove-IsWithout : (p : ℕ) (l : List ℕ) → 1 ≤ count p l → IsWithout p (lru_remove p l) l
lru_remove-IsWithout p [] h q = absurd (omega (arith, count-nil p))
lru_remove-IsWithout p (x ∷ l) h q = elim (eq-or-ne x p) [
  | inl same ↦
      ap (λ y. count q (y ∷ l)) same ∙ ap (λ m. count q (p ∷ m)) (sym (lru_remove-same p x l same))
  | inr other ↦
      let more =
        lru_remove-IsWithout p l (omega (arith, h, count-cons_other p x l (λ e. other (sym e))))
          q in
      omega (
        arith,
        more,
        ap (count q) (lru_remove-other p x l other),
        count_cons q x l,
        count_cons q x (lru_remove p l),
        count_cons q p (lru_remove p (x ∷ l)),
        count_cons q p (lru_remove p l),
      )
]

module _ (avl : Avl) where
  open avl use {find}

  -- Forgetting an entry and giving its reference of the database back.
  evict_one-IsCounted :
      (cache : Cache avl) (handed lru : List ℕ) (p : ℕ)
      → IsCounted avl cache handed
      → count p cache.lru ≡ 1
      → IsWithout p lru cache.lru
      → count p handed < 2 ^ 31
      → IsCounted avl (dns_cache_decref_elm avl (forget avl cache p lru) p) handed
  evict_one-IsCounted cache handed lru p i one out small =
      decref-IsCounted avl (forget avl cache p lru) handed p
        (forget-IsCounted avl cache handed lru p i one out) (omega (arith, small))

  decref_keeps :
      (cache : Cache avl) (p : ℕ)
      → ((dns_cache_decref_elm avl cache p).lru ≡ cache.lru)
        × ((dns_cache_decref_elm avl cache p).max_mem_b ≡ cache.max_mem_b)
  unfolding dns_cache_decref_elm
  decref_keeps cache p = elim (Option-cases (cache.entries p)) [
    | inl e ↦ rw (e, dns_cache_decref_elm) (refl, refl)
    | inr (d, e) ↦ elim (Bool-cases ((d.refcnt + 2 ^ 32 - 1) % 2 ^ 32 == 0)) [
      | inl z ↦ rw (e, dns_cache_decref_elm, z) (refl, refl)
      | inr z ↦ rw (e, dns_cache_decref_elm, z) (refl, refl)
    ]
  ]

  forget-lru : (cache : Cache avl) (p : ℕ) (lru : List ℕ) → (forget avl cache p lru).lru ≡ lru
  unfolding forget
  forget-lru cache p lru = elim (Option-cases (cache.entries p)) [
    | inl e ↦ rw (e, forget) refl
    | inr (d, e) ↦ rw (e, forget) refl
  ]

  evict-IsCounted :
      (bytes_out needed freed : ℕ) (lru : List ℕ) (cache : Cache avl) (handed : List ℕ)
      → cache.lru ≡ lru
      → IsCounted avl cache handed
      → ((p : ℕ) → count p handed < 2 ^ 31)
      → IsCounted avl (evict avl bytes_out needed freed lru cache).1 handed
  unfolding evict
  evict-IsCounted bytes_out needed freed [] cache handed e i small = i
  evict-IsCounted bytes_out needed freed (p ∷ lru) cache handed e i small =
      let one : count p cache.lru ≡ 1 =
        omega (arith, ap (count p) e, i.once p, count-cons_self p lru) in
      elim (Bool-cases (leb (bytes_out + needed) (cache.max_mem_b + freed))) [
        | inl fits ↦ rw (fits) i
        | inr full ↦ rw (full) (
            evict-IsCounted bytes_out needed (freed + size_at avl cache p) lru
              (dns_cache_decref_elm avl (forget avl cache p lru) p) handed
              ((decref_keeps (forget avl cache p lru) p).0 ∙ forget-lru cache p lru)
              (evict_one-IsCounted cache handed lru p i one (λ q. ap (count q) e) (small p)) small)
      ]

  -- The cache with a new entry of `addr`, whose old entry has left the queue.
  replaced-IsCounted :
      (cache : Cache avl) (handed : List ℕ) (addr : ℕ) (name : List ℕ) (now old : ℕ) (e : Entry)
      → IsCounted avl cache handed
      → find cache.tree addr ≡ some old
      → cache.entries old ≡ some e
      → e.addr ≡ addr
      → count old cache.lru ≡ 1
      → IsCounted avl
          (record (add_entry avl cache addr name now) {
            lru = lru_remove old (cache.lru ++ (cache.next ∷ []));
          })
          (old ∷ cache.next ∷ handed)
  unfolding add_entry
  replaced-IsCounted cache handed addr name now old e i known pe ea one =
      IsCounted-same avl (add_entry avl left addr name now)
        (record (add_entry avl cache addr name now) {
          lru = lru_remove old (cache.lru ++ (cache.next ∷ []));
        })
        (cache.next ∷ old ∷ handed) (old ∷ cache.next ∷ handed) (λ p. refl) refl trees queues
        (λ p. omega (
          arith,
          count_cons p cache.next (old ∷ handed),
          count_cons p old handed,
          count_cons p old (cache.next ∷ handed),
          count_cons p cache.next handed,
        ))
        (add_entry-IsCounted avl left (old ∷ handed) addr name now left-IsCounted
          (ap (find left.tree) (sym ea) ∙ avl.find-remove_self cache.tree e.addr))
    where
      left : Cache avl
      left = record cache { lru = lru_remove old cache.lru; tree = avl.remove cache.tree e.addr }

      left-IsCounted : IsCounted avl left (old ∷ handed)
      left-IsCounted =
          subst (λ c. IsCounted avl c (old ∷ handed))
            (forget-eq avl cache old (lru_remove old cache.lru) e pe)
            (forget-IsCounted avl cache handed (lru_remove old cache.lru) old i one
              (lru_remove-IsWithout old cache.lru (omega (arith, one))))

      trees :
          (a : ℕ)
          → find (avl.insert left.tree addr cache.next) a
            ≡ find (avl.insert cache.tree addr cache.next) a
      trees a = elim (eq-or-ne a addr) [
        | inl same ↦
            ap (find (avl.insert left.tree addr cache.next)) same
            ∙ avl.find-insert_self left.tree addr cache.next
            ∙ sym (avl.find-insert_self cache.tree addr cache.next)
            ∙ ap (find (avl.insert cache.tree addr cache.next)) (sym same)
        | inr other ↦
            avl.find-insert left.tree addr cache.next a other
            ∙ avl.find-remove cache.tree e.addr a (λ h. other (h ∙ ea))
            ∙ sym (avl.find-insert cache.tree addr cache.next a other)
      ]

      queues :
          (p : ℕ)
          → count p (lru_remove old cache.lru ++ (cache.next ∷ []))
            ≡ count p (lru_remove old (cache.lru ++ (cache.next ∷ [])))
      queues p =
          let all : 1 ≤ count old (cache.lru ++ (cache.next ∷ [])) =
            omega (arith, one, count-append old cache.lru (cache.next ∷ [])) in
          omega (
            arith,
            lru_remove-IsWithout old (cache.lru ++ (cache.next ∷ [])) all p,
            lru_remove-IsWithout old cache.lru (omega (arith, one)) p,
            count_cons p old (lru_remove old cache.lru),
            count_cons p old (lru_remove old (cache.lru ++ (cache.next ∷ []))),
            count-append p (lru_remove old cache.lru) (cache.next ∷ []),
            count-append p cache.lru (cache.next ∷ []),
          )

  -- The entry of `addr` that was there before.
  drop_old-IsCounted :
      (cache : Cache avl) (handed : List ℕ) (addr : ℕ) (name : List ℕ) (now : ℕ)
      → IsCounted avl cache handed
      → ((p : ℕ) → count p handed < 2 ^ 31)
      → IsCounted avl
          (drop_old avl (find cache.tree addr) (add_entry avl cache addr name now))
          (cache.next ∷ handed)
  unfolding drop_old add_entry
  drop_old-IsCounted cache handed addr name now i small =
      elim (Option-cases (find cache.tree addr)) [
        | inl unknown ↦
            rw (unknown, drop_old) (add_entry-IsCounted avl cache handed addr name now i unknown)
        | inr (old, known) ↦
            let (e, pe, ea, one) = i.indexed addr old known in
            rw (known, drop_old)
              (decref-IsCounted avl _ (cache.next ∷ handed) old
                (replaced-IsCounted cache handed addr name now old e i known pe ea one)
                (grind (arith, small old, count_cons old cache.next handed)))
      ]

  pub save-IsCounted :
      (has_memory : Bool) (cache : Cache avl) (handed : List ℕ) (addr : ℕ) (name : List ℕ) (now : ℕ)
      → IsCounted avl cache handed
      → ((p : ℕ) → count p handed < 2 ^ 31)
      → IsCounted avl
          (dns_cache_save_elm avl has_memory cache addr name now).1
          (handing (dns_cache_save_elm avl has_memory cache addr name now).0 handed)
  unfolding dns_cache_save_elm handing
  save-IsCounted has_memory cache handed addr name now i small =
      let needed = avl.entry_size + length name + 1 in
      let room = evict-IsCounted cache.bytes_out needed 0 cache.lru cache handed refl i small in
      elim (Bool-cases (evict avl cache.bytes_out needed 0 cache.lru cache).0) [
        | inl fits ↦ elim (Bool-cases has_memory) [
          | inl has ↦
              rw (fits, has)
                (drop_old-IsCounted (evict avl cache.bytes_out needed 0 cache.lru cache).1 handed
                  addr name now room small)
          | inr has ↦ rw (fits, has) room
        ]
        | inr full ↦ rw (full) room
      ]

  found-IsCounted :
      (cache : Cache avl) (handed : List ℕ) (addr now ret : ℕ) (e : Entry)
      → IsCounted avl cache handed
      → ((p : ℕ) → count p handed < 2 ^ 31)
      → cache.entries ret ≡ some e
      → count ret cache.lru ≡ 1
      → IsCounted avl
          (get_found avl cache now ret e).1
          (handing (get_found avl cache now ret e).0 handed)
  unfolding get_found handing
  found-IsCounted cache handed addr now ret e i small pe one =
      let out = lru_remove-IsWithout ret cache.lru (omega (arith, one)) in
      let r : e.refcnt ≡ 1 + count ret handed = omega (arith, ap refcount pe, i.counted ret, one) in
      let k : (e.refcnt + 1) % 2 ^ 32 ≡ 2 + count ret handed = omega (arith, small ret) in
      elim (Bool-cases (ltb (e.last_checked + cache.timeout_s) now)) [
        | inl late ↦
            rw (late) (
              evict_one-IsCounted cache handed (lru_remove ret cache.lru) ret i one out (small ret))
        | inr fresh ↦
            rw (fresh, k)
              (update-IsCounted avl cache handed (ret ∷ handed)
                (lru_remove ret cache.lru ++ (ret ∷ [])) ret cache.bytes_out e
                (some (record e { refcnt = 2 + count ret handed })) pe
                (λ q. omega (
                  arith,
                  out q,
                  count-append q (lru_remove ret cache.lru) (ret ∷ []),
                  count_cons q ret [],
                  count_cons q ret (lru_remove ret cache.lru),
                  count-nil q,
                ))
                (omega (arith, one, count-cons_self ret handed))
                (λ q h. count-cons_other q ret handed h)
                (λ d h. (ground (arith, ap refcount h), sym (ap addr_of h))) i)
      ]

  pub get-IsCounted :
      (cache : Cache avl) (handed : List ℕ) (addr now : ℕ)
      → IsCounted avl cache handed
      → ((p : ℕ) → count p handed < 2 ^ 31)
      → IsCounted avl
          (dns_cache_get_elm avl cache addr now).1
          (handing (dns_cache_get_elm avl cache addr now).0 handed)
  unfolding dns_cache_get_elm
  get-IsCounted cache handed addr now i small = elim (Option-cases (find cache.tree addr)) [
    | inl unknown ↦ rw (unknown, dns_cache_get_elm) (unfold handing in i)
    | inr (ret, known) ↦
        let (e, pe, ea, one) = i.indexed addr ret known in
        rw (known, pe, dns_cache_get_elm)
          (found-IsCounted cache handed addr now ret e i small pe one)
  ]
