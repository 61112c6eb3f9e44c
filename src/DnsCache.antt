-- ===== src/DnsCache.antt =====
-- src/rb_dns_cache.c: the cache of names of addresses. Entries are counted references: one of the
-- database, and one for each element handed out.
pub mod Invariant
pub mod Steps
pub mod Updates
pub mod Add
pub mod Calls
pub mod Runs
mod Tests
use f2k.Base.{
  ℕ, ◌+◌, ◌-◌, ◌*◌, ◌%◌, ◌^◌, ◌≡◌, ◌≢◌, Bool, true, not, Option, none, some, List, [], ◌∷◌, ◌++◌,
  ltb, leb, ◌==◌, if◌then◌else◌, length,
}

-- The AVL tree of librd from an address to the pointer of its entry, and the size of an entry,
-- which holds a node of the tree.
pub record Avl : Type 1 where
  pub Tree : Type 0
  pub empty : Tree
  pub find : Tree → ℕ → Option ℕ
  pub insert : Tree → ℕ → ℕ → Tree
  pub remove : Tree → ℕ → Tree
  pub find-empty : (a : ℕ) → find empty a ≡ none
  pub find-insert_self : (t : Tree) (a p : ℕ) → find (insert t a p) a ≡ some p
  pub find-insert : (t : Tree) (a p b : ℕ) → b ≢ a → find (insert t a p) b ≡ find t b
  pub find-remove_self : (t : Tree) (a : ℕ) → find (remove t a) a ≡ none
  pub find-remove : (t : Tree) (a b : ℕ) → b ≢ a → find (remove t a) b ≡ find t b
  pub entry_size : ℕ

-- `struct dns_cache_entry` with its `elm`; an address is its 16 bytes as a number.
pub record Entry : Type 0 where
  pub addr : ℕ
  pub name : List ℕ
  pub last_checked : ℕ
  pub refcnt : ℕ

-- `TAILQ_REMOVE`
unfoldable pub lru_remove : ℕ → List ℕ → List ℕ
lru_remove p [] = []
lru_remove p (q ∷ qs) = let rest = lru_remove p qs in if q == p then qs else q ∷ rest

-- The entry, of a pointer to it, changed to `e`.
unfoldable pub set_entry : (ℕ → Option Entry) → ℕ → Option Entry → ℕ → Option Entry
set_entry entries p e q = if q == p then e else entries q

-- What a call returns: a null pointer, a pointer computed from a null pointer, or an element.
pub data Returned : Type 0 where
  null : Returned
  invalid : Returned
  elm : ℕ → Returned

module _ (avl : Avl) where
  open avl use {Tree, empty, find, insert, remove, entry_size}

  unfoldable pub real_entry_size : Entry → ℕ
  real_entry_size entry = entry_size + length entry.name + 1

  -- `struct dns_cache`. The memory is a map from the pointers in use to their entries, and `next` a
  -- pointer that is not in use. The queue holds the entry used longest ago first.
  pub record Cache : Type 0 where
    pub max_mem_b : ℕ
    pub timeout_s : ℕ
    pub entries : ℕ → Option Entry
    pub bytes_out : ℕ
    pub next : ℕ
    pub tree : Tree
    pub lru : List ℕ

  unfoldable pub dns_cache_new : ℕ → ℕ → Cache
  dns_cache_new maxmem_m timeout_s = record {
    max_mem_b = maxmem_m * 1024 * 1024;
    timeout_s = timeout_s;
    entries = λ p. none;
    bytes_out = 0;
    next = 0;
    tree = empty;
    lru = [];
  }

  -- `dns_cache_decref_elm`. The count is a `uint32_t`; an entry without references is freed.
  unfoldable pub dns_cache_decref_elm : Cache → ℕ → Cache
  dns_cache_decref_elm cache p = elim (cache.entries p) [
    | none ↦ cache
    | some e ↦
        let refcnt = (e.refcnt + 2 ^ 32 - 1) % 2 ^ 32 in
        if refcnt == 0
        then record cache {
          entries = set_entry cache.entries p none;
          bytes_out = cache.bytes_out - real_entry_size e;
        }
        else record cache {
          entries = set_entry cache.entries p (some (record e { refcnt = refcnt }));
        }
  ]

  -- The entry leaves the tree and, by `lru`, the queue.
  unfoldable pub forget : Cache → ℕ → List ℕ → Cache
  forget cache p lru = elim (cache.entries p) [
    | none ↦ record cache { lru = lru }
    | some e ↦ record cache { lru = lru; tree = remove cache.tree e.addr }
  ]

  unfoldable pub size_at : Cache → ℕ → ℕ
  size_at cache p = elim (cache.entries p) [ none ↦ 0 | some e ↦ real_entry_size e ]

  -- The `while` loop of `dns_cache_save_elm`, over the queue: `bytes_out` is that of the start, and
  -- `false` is the return with a full cache.
  unfoldable pub evict : ℕ → ℕ → ℕ → List ℕ → Cache → Bool × Cache
  evict bytes_out needed freed_size [] cache =
      (leb (bytes_out + needed) (cache.max_mem_b + freed_size), cache)
  evict bytes_out needed freed_size (p ∷ lru) cache =
      let more =
        evict bytes_out needed (freed_size + size_at cache p) lru
          (dns_cache_decref_elm (forget cache p lru) p) in
      if leb (bytes_out + needed) (cache.max_mem_b + freed_size) then (true, cache) else more

  -- A new entry at `next`, with a reference of the database and one to return.
  unfoldable pub add_entry : Cache → ℕ → List ℕ → ℕ → Cache
  add_entry cache addr name now =
      let entry : Entry = record { addr = addr; name = name; last_checked = now; refcnt = 2 } in
      record cache {
        entries = set_entry cache.entries cache.next (some entry);
        bytes_out = cache.bytes_out + real_entry_size entry;
        next = cache.next + 1;
        tree = insert cache.tree addr cache.next;
        lru = cache.lru ++ (cache.next ∷ []);
      }

  -- The entry that `RD_AVL_INSERT` replaced.
  unfoldable pub drop_old : Option ℕ → Cache → Cache
  drop_old none cache = cache
  drop_old (some old) cache =
      dns_cache_decref_elm (record cache { lru = lru_remove old cache.lru }) old

  -- `has_memory` is whether `rd_memctx_calloc` succeeds. If it does not, the address of a field of
  -- the null pointer is returned.
  unfoldable pub dns_cache_save_elm : Bool → Cache → ℕ → List ℕ → ℕ → Returned × Cache
  dns_cache_save_elm has_memory cache addr name now =
      let needed = entry_size + length name + 1 in
      let (fits, room) = evict cache.bytes_out needed 0 cache.lru cache in
      if not fits
      then (null, room)
      else if not has_memory
      then (invalid, room)
      else (elm room.next, drop_old (find room.tree addr) (add_entry room addr name now))

  -- The entry of `ret`, found at `addr`.
  unfoldable pub get_found : Cache → ℕ → ℕ → Entry → Returned × Cache
  get_found cache now ret e =
      let lru = lru_remove ret cache.lru in
      if ltb (e.last_checked + cache.timeout_s) now
      then (null, dns_cache_decref_elm (forget cache ret lru) ret)
      else (
        elm ret,
        record cache {
          lru = lru ++ (ret ∷ []);
          entries =
              set_entry cache.entries ret (some (record e { refcnt = (e.refcnt + 1) % 2 ^ 32 }));
        },
      )

  unfoldable pub dns_cache_get_elm : Cache → ℕ → ℕ → Returned × Cache
  dns_cache_get_elm cache addr now = elim (find cache.tree addr) [
    | none ↦ (null, cache)
    | some ret ↦ elim (cache.entries ret) [
      | none ↦ (null, cache)
      | some e ↦ get_found cache now ret e
    ]
  ]
