-- ===== src/DnsCache/Tests.antt =====
-- Runs of the cache of names, with a tree that is a function.
use f2k.DnsCache.Invariant.{count, handing, IsCounted}
use f2k.Base.{
  ℕ, ◌≡◌, ◌≢◌, refl, inl, inr, true, Option, none, some, List, [], ◌∷◌, arith, ◌==◌, if◌then◌else◌,
  Bool-cases, ==_iff,
}
use f2k.DnsCache.Runs.{do_call, Call, save, get, release, run, run-IsCounted}
use f2k.DnsCache.{
  lru_remove, get_found, real_entry_size, set_entry, drop_old, add_entry, dns_cache_decref_elm,
  size_at, forget, evict, dns_cache_get_elm, dns_cache_save_elm, Avl, dns_cache_new,
}

abbrev set : (ℕ → Option ℕ) → ℕ → Option ℕ → ℕ → Option ℕ
set tree a p b = if b == a then p else tree b

set_self : (t : ℕ → Option ℕ) (a : ℕ) (p : Option ℕ) → set t a p a ≡ p
set_self t a p = rw ((==_iff a a).1 refl) refl

set_other : (t : ℕ → Option ℕ) (a b : ℕ) (p : Option ℕ) → b ≢ a → set t a p b ≡ t b
set_other t a b p h = elim (Bool-cases (b == a)) [
  | inl e ↦ absurd (h ((==_iff b a).0 e))
  | inr e ↦ rw (e) refl
]

-- Entries are so large that a megabyte holds three.
abbrev functions : Avl
functions = record {
  Tree = ℕ → Option ℕ;
  empty = λ a. none;
  find = λ t a. t a;
  insert = λ t a p. set t a (some p);
  remove = λ t a. set t a none;
  find-empty = λ a. refl;
  find-insert_self = λ t a p. set_self t a (some p);
  find-insert = λ t a p b h. set_other t a b (some p) h;
  find-remove_self = λ t a. set_self t a none;
  find-remove = λ t a b h. set_other t a b none h;
  entry_size = 300000;
}

-- Saved, found, replaced, evicted and timed out.
abbrev calls : List Call
calls =
    save true 7 (97 ∷ 98 ∷ []) 100
    ∷ get 7 101
    ∷ save true 7 (99 ∷ []) 102
    ∷ release 0
    ∷ release 0
    ∷ save true 8 [] 103
    ∷ save true 9 [] 104
    ∷ save true 10 [] 104
    ∷ get 10 1000
    ∷ get 9 105
    ∷ []

run_handed : (run functions calls (dns_cache_new functions 1 60, [])).1 ≡ 3 ∷ 4 ∷ 3 ∷ 2 ∷ 1 ∷ []
unfolding run do_call dns_cache_save_elm dns_cache_get_elm evict forget size_at dns_cache_decref_elm
    add_entry drop_old set_entry real_entry_size get_found handing count lru_remove dns_cache_new
run_handed = refl

run-IsCounted_example :
    let state = run functions calls (dns_cache_new functions 1 60, []) in
    IsCounted functions state.0 state.1
run-IsCounted_example = run-IsCounted functions calls 1 60 (ground arith)
