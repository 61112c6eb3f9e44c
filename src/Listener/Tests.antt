-- ===== src/Listener/Tests.antt =====
-- Runs of the listeners, and their theorems at concrete inputs.
use f2k.Listener.Merge.{merge_keeps_open, is_present-merge}
use f2k.Listener.{
  is_purged, purge_listeners, same_port, merge_netflow_listener_list, PortCollector, is_present,
}
use f2k.Base.{ℕ, ◌≡◌, refl, some, List, [], ◌∷◌, get_elem?}

abbrev on : ℕ → ℕ → PortCollector
on port socket = record { proto = 17; port = port; socket = socket }

abbrev old_list : List PortCollector
old_list = on 2055 4 ∷ on 9995 5 ∷ []

abbrev new_list : List PortCollector
new_list = on 4739 0 ∷ on 2055 0 ∷ []

merges :
    merge_netflow_listener_list old_list new_list
    ≡ (on 2055 4 ∷ on 4739 0 ∷ [], on 9995 5 ∷ on 2055 0 ∷ [])
unfolding merge_netflow_listener_list purge_listeners is_purged is_present same_port
merges = refl

is_present-merge_example :
    is_present (on 2055 0) (merge_netflow_listener_list old_list new_list).0
    ≡ is_present (on 2055 0) new_list
is_present-merge_example = is_present-merge (on 2055 0) old_list new_list

merge_keeps_open_example :
    (j : ℕ) × (get_elem? (merge_netflow_listener_list old_list new_list).0 j ≡ some (on 2055 4))
unfolding is_present same_port
merge_keeps_open_example = merge_keeps_open old_list new_list 0 (on 2055 4) refl refl
