-- ===== src/Listener/Merge.antt =====
-- A merge listens on exactly the new ports, and keeps the sockets that are open.
use f2k.Base.{
  ℕ, zero, suc, ◌≡◌, refl, ap, inl, inr, Bool, true, false, not, ◌&&◌, ◌||◌, some, List, [], ◌∷◌,
  ◌++◌, arith, Bool-cases, get_elem?,
}
use f2k.Listener.{
  present, not_present, merge_netflow_listener_list, is_purged, PurgeType, same_port, PortCollector,
  is_present, purge_listeners,
}

-- The two kinds of purge split the list.
purge_split :
    (c : PortCollector) (l compare : List PortCollector) (type : PurgeType)
    → let (kept, closed) = purge_listeners l compare type in
      is_present c l ≡ (is_present c kept || is_present c closed)
unfolding purge_listeners is_present
purge_split c [] compare type = refl
purge_split c (i ∷ l) compare type = ground (arith, purge_split c l compare type)

same_port-is_present :
    (i c : PortCollector) (l : List PortCollector)
    → same_port i c ≡ true
    → is_present i l ≡ is_present c l
unfolding is_present same_port
same_port-is_present i c [] h = refl
same_port-is_present i c (j ∷ l) h = ground (arith, same_port-is_present i c l h)

is_purged-same :
    (i c : PortCollector) (l : List PortCollector) (type : PurgeType)
    → same_port i c ≡ true
    → is_purged type i l ≡ is_purged type c l
unfolding is_purged
is_purged-same i c l present h = same_port-is_present i c l h
is_purged-same i c l not_present h = ap not (same_port-is_present i c l h)

-- A port is kept if it was there and the purge does not concern it.
purge_kept :
    (c : PortCollector) (l compare : List PortCollector) (type : PurgeType)
    → is_present c (purge_listeners l compare type).0
      ≡ (is_present c l && not (is_purged type c compare))
unfolding purge_listeners is_present
purge_kept c [] compare type = refl
purge_kept c (i ∷ l) compare type = elim (Bool-cases (same_port i c)) [
  | inl same ↦ ground (arith, purge_kept c l compare type, is_purged-same i c compare type same)
  | inr other ↦ ground (arith, purge_kept c l compare type)
]

is_present-append :
    (c : PortCollector) (xs ys : List PortCollector)
    → is_present c (xs ++ ys) ≡ (is_present c xs || is_present c ys)
unfolding is_present
is_present-append c [] ys = refl
is_present-append c (x ∷ xs) ys = ground (arith, is_present-append c xs ys)

-- After a merge the collector listens on a port exactly if the new list has it.
pub is_present-merge :
    (c : PortCollector) (l1 l2 : List PortCollector)
    → is_present c (merge_netflow_listener_list l1 l2).0 ≡ is_present c l2
unfolding merge_netflow_listener_list is_purged
is_present-merge c l1 l2 =
    let kept = (purge_listeners l1 l2 not_present).0 in
    let new = (purge_listeners l2 kept present).0 in
    ground (
      arith,
      is_present-append c kept new,
      purge_kept c l1 l2 not_present,
      purge_kept c l2 kept present,
    )

-- No port twice.
unfoldable pub distinct : List PortCollector → Bool
distinct [] = true
distinct (i ∷ l) = not (is_present i l) && distinct l

distinct-purge :
    (l compare : List PortCollector) (type : PurgeType)
    → distinct l ≡ true
    → distinct (purge_listeners l compare type).0 ≡ true
unfolding distinct purge_listeners
distinct-purge [] compare type h = refl
distinct-purge (i ∷ l) compare type h =
    ground (arith, distinct-purge l compare type, purge_kept i l compare type)

-- Lists without a port in common.
abbrev Apart : List PortCollector → List PortCollector → Type 0
Apart xs ys = (c : PortCollector) → (is_present c xs && is_present c ys) ≡ false

same_port_refl : (i : PortCollector) → same_port i i ≡ true
same_port_refl i = unfold same_port in ground arith

distinct-append :
    (xs ys : List PortCollector)
    → distinct xs ≡ true
    → distinct ys ≡ true
    → Apart xs ys
    → distinct (xs ++ ys) ≡ true
unfolding distinct is_present
distinct-append [] ys hx hy apart = hy
distinct-append (x ∷ xs) ys hx hy apart = ground (
  arith,
  distinct-append xs ys (ground arith) hy (λ c. ground (arith, apart c)),
  is_present-append x xs ys,
  apart x,
  same_port_refl x,
)

-- If neither list has a port twice, the merged list has none twice: no socket is opened for a port
-- that is open.
pub distinct-merge :
    (l1 l2 : List PortCollector)
    → distinct l1 ≡ true
    → distinct l2 ≡ true
    → distinct (merge_netflow_listener_list l1 l2).0 ≡ true
unfolding merge_netflow_listener_list is_purged
distinct-merge l1 l2 h1 h2 =
    let kept = (purge_listeners l1 l2 not_present).0 in
    let new = (purge_listeners l2 kept present).0 in
    distinct-append kept new (distinct-purge l1 l2 not_present h1)
      (distinct-purge l2 kept present h2) (λ c. ground (arith, purge_kept c l2 kept present))

-- A listener of the old list whose port is wanted again is kept.
open_kept :
    (l compare : List PortCollector) (i : ℕ) (c : PortCollector)
    → get_elem? l i ≡ some c
    → is_present c compare ≡ true
    → (j : ℕ) × (get_elem? (purge_listeners l compare not_present).0 j ≡ some c)
unfolding purge_listeners is_purged
open_kept [] compare i c h p = absurd (ground arith)
open_kept (x ∷ l) compare zero c h p = (0, ground arith)
open_kept (x ∷ l) compare (suc i) c h p =
    let (j, e) = open_kept l compare i c h p in
    elim (Bool-cases (is_present x compare)) [
      | inl stays ↦ (suc j, ground (arith, e))
      | inr goes ↦ (j, ground (arith, e))
    ]

get_elem?-append :
    (xs ys : List PortCollector) (j : ℕ) (c : PortCollector)
    → get_elem? xs j ≡ some c
    → get_elem? (xs ++ ys) j ≡ some c
get_elem?-append [] ys j c h = absurd (ground arith)
get_elem?-append (x ∷ xs) ys zero c h = h
get_elem?-append (x ∷ xs) ys (suc j) c h = get_elem?-append xs ys j c h

-- Open sockets survive a merge: a listener of the old list whose port is in the new list is, with its
-- socket, in the merged list.
pub merge_keeps_open :
    (l1 l2 : List PortCollector) (i : ℕ) (c : PortCollector)
    → get_elem? l1 i ≡ some c
    → is_present c l2 ≡ true
    → (j : ℕ) × (get_elem? (merge_netflow_listener_list l1 l2).0 j ≡ some c)
unfolding merge_netflow_listener_list
merge_keeps_open l1 l2 i c h p =
    let kept = (purge_listeners l1 l2 not_present).0 in
    let (j, e) = open_kept l1 l2 i c h p in
    (j, get_elem?-append kept (purge_listeners l2 kept present).0 j c e)
