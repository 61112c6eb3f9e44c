-- ===== src/Listener.antt =====
-- The sockets that the collector listens on, src/rb_listener.c: what a new configuration keeps, opens
-- and closes.
pub mod Merge
mod Tests
use f2k.Base.{ℕ, ◌+◌, Bool, true, false, not, ◌&&◌, List, [], ◌∷◌, ◌++◌, ◌==◌, if◌then◌else◌}

-- `struct port_collector`; `socket` stands for the open socket and its thread.
pub record PortCollector : Type 0 where
  pub proto : ℕ
  pub port : ℕ
  pub socket : ℕ

unfoldable pub same_port : PortCollector → PortCollector → Bool
same_port i collector = i.proto == collector.proto && i.port == collector.port

unfoldable pub is_present : PortCollector → List PortCollector → Bool
is_present collector [] = false
is_present collector (i ∷ list) =
    let rest = is_present collector list in if same_port i collector then true else rest

-- `enum purge_type`
pub data PurgeType : Type 0 where
  present : PurgeType
  not_present : PurgeType

unfoldable pub is_purged : PurgeType → PortCollector → List PortCollector → Bool
is_purged present i compare = is_present i compare
is_purged not_present i compare = not (is_present i compare)

-- What is left of `original`, and what `closeNetFlowListener` closes, in this order.
unfoldable pub purge_listeners :
    List PortCollector → List PortCollector → PurgeType → List PortCollector × List PortCollector
purge_listeners [] compare type = ([], [])
purge_listeners (i ∷ original) compare type =
    let (kept, closed) = purge_listeners original compare type in
    if is_purged type i compare then (kept, i ∷ closed) else (i ∷ kept, closed)

-- The merged list, and all that is closed.
unfoldable pub merge_netflow_listener_list :
    List PortCollector → List PortCollector → List PortCollector × List PortCollector
merge_netflow_listener_list l1 l2 =
    let (kept, old) = purge_listeners l1 l2 not_present in
    let (new, duplicates) = purge_listeners l2 kept present in (kept ++ new, old ++ duplicates)
