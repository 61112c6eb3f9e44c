-- ===== src/DnsCache/Runs.antt =====
-- Runs of calls of the cache, by the code that keeps the elements it is handed.
use f2k.DnsCache.Steps.{none-ne-some}
use f2k.DnsCache.Updates.{decref-IsCounted, IsCounted-same}
use f2k.DnsCache.Invariant.{count_cons, count-nil, IsCounted, handing, count}
use f2k.Base.{
  ℕ, ◌+◌, ◌^◌, ◌≤◌, ◌<◌, refl, sym, ◌∙◌, inl, inr, Bool, List, [], ◌∷◌, arith, ◌==◌, if◌then◌else◌,
  Bool-cases, length,
}
use f2k.DnsCache.Calls.{lru_remove-IsWithout, save-IsCounted, get-IsCounted}
use f2k.DnsCache.{
  null, invalid, elm, dns_cache_decref_elm, dns_cache_get_elm, dns_cache_save_elm, Avl, Cache,
  Returned, dns_cache_new, lru_remove,
}

-- A call: saving a name, looking an address up, or giving an element back.
pub data Call : Type 0 where
  save : Bool → ℕ → List ℕ → ℕ → Call
  get : ℕ → ℕ → Call
  release : ℕ → Call

module _ (avl : Avl) where
  -- The cache, and the elements handed out and not given back. An element that was not handed out is
  -- not given back.
  unfoldable pub do_call : Call → Cache avl × List ℕ → Cache avl × List ℕ
  do_call (save has_memory addr name now) (cache, handed) =
      let (ret, saved) = dns_cache_save_elm avl has_memory cache addr name now in
      (saved, handing ret handed)
  do_call (get addr now) (cache, handed) =
      let (ret, found) = dns_cache_get_elm avl cache addr now in (found, handing ret handed)
  do_call (release p) (cache, handed) =
      if count p handed == 0
      then (cache, handed)
      else (dns_cache_decref_elm avl cache p, lru_remove p handed)

  unfoldable pub run : List Call → Cache avl × List ℕ → Cache avl × List ℕ
  run [] state = state
  run (c ∷ calls) state = run calls (do_call c state)

  abbrev AtMost : ℕ → List ℕ → Type 0
  AtMost n handed = (p : ℕ) → count p handed ≤ n

  handing-AtMost :
      (n : ℕ) (ret : Returned) (handed : List ℕ)
      → AtMost n handed
      → AtMost (n + 1) (handing ret handed)
  unfolding handing
  handing-AtMost n null handed h p = omega (arith, h p)
  handing-AtMost n invalid handed h p = omega (arith, h p)
  handing-AtMost n (elm q) handed h p = grind (arith, h p, count_cons p q handed)

  do_call-IsCounted :
      (n : ℕ) (c : Call) (cache : Cache avl) (handed : List ℕ)
      → n < 2 ^ 31
      → AtMost n handed
      → IsCounted avl cache handed
      → IsCounted avl (do_call c (cache, handed)).0 (do_call c (cache, handed)).1
        × AtMost (n + 1) (do_call c (cache, handed)).1
  unfolding do_call
  do_call-IsCounted n (save has_memory addr name now) cache handed l h i = (
    save-IsCounted avl has_memory cache handed addr name now i (λ p. omega (arith, h p)),
    handing-AtMost n _ handed h,
  )
  do_call-IsCounted n (get addr now) cache handed l h i = (
    get-IsCounted avl cache handed addr now i (λ p. omega (arith, h p)),
    handing-AtMost n _ handed h,
  )
  do_call-IsCounted n (release p) cache handed l h i = elim (Bool-cases (count p handed == 0)) [
    | inl none_left ↦ rw (none_left) (i, λ q. omega (arith, h q))
    | inr held ↦
        let out = lru_remove-IsWithout p handed (ground arith) in
        let same : IsCounted avl cache (p ∷ lru_remove p handed) =
          IsCounted-same avl cache cache handed (p ∷ lru_remove p handed) (λ q. refl) refl
            (λ q. refl) (λ q. refl) out i in
        rw (held) (
          decref-IsCounted avl cache (lru_remove p handed) p same
              (grind (arith, out p, h p, count_cons p p (lru_remove p handed))),
          λ q. grind (arith, out q, h q, count_cons q p (lru_remove p handed)),
        )
  ]

  dns_cache_new-IsCounted :
      (maxmem_m timeout_s : ℕ) → IsCounted avl (dns_cache_new avl maxmem_m timeout_s) []
  unfolding dns_cache_new
  dns_cache_new-IsCounted maxmem_m timeout_s = record {
    counted = λ p. omega (arith, count-nil p);
    used = λ p e h. absurd (none-ne-some avl h);
    once = λ p. omega (arith, count-nil p);
    indexed = λ a p h. absurd (none-ne-some avl (sym (avl.find-empty a) ∙ h));
    listed = λ p e h. absurd (none-ne-some avl h);
    fresh = λ p h. refl;
  }

  run-from :
      (calls : List Call) (n : ℕ) (cache : Cache avl) (handed : List ℕ)
      → n + length calls ≤ 2 ^ 31
      → AtMost n handed
      → IsCounted avl cache handed
      → IsCounted avl (run calls (cache, handed)).0 (run calls (cache, handed)).1
  unfolding run
  run-from [] n cache handed l h i = i
  run-from (c ∷ calls) n cache handed l h i =
      let (j, k) = do_call-IsCounted n c cache handed (omega arith) h i in
      run-from calls (n + 1) _ _ (omega arith) k j

  -- After at most 2^31 calls on a new cache, whatever they are, the count of each entry is 1 if
  -- the database has it, plus one for each time that it is handed out, and an entry is in memory
  -- just if its count is not 0. The tree finds, at an address, the entries of that address in the
  -- queue, and no others. So no element that is handed out has been freed, and none of them is
  -- freed twice.
  pub run-IsCounted :
      (calls : List Call) (maxmem_m timeout_s : ℕ)
      → length calls ≤ 2 ^ 31
      → let state = run calls (dns_cache_new avl maxmem_m timeout_s, []) in
        IsCounted avl state.0 state.1
  run-IsCounted calls maxmem_m timeout_s l =
      run-from calls 0 _ [] (omega (arith, l)) (λ p. omega (arith, count-nil p))
        (dns_cache_new-IsCounted maxmem_m timeout_s)
