-- ===== src/Tests/Table.antt =====
-- The routing table at concrete inputs.
use bt_dht_crawler.Prelude.{
  ℕ, zero, suc, ◌≤◌, ◌≡◌, ◌≢◌, refl, true, false, List, [], ◌∷◌, length, ◌⊎◌, none,
}
use bt_dht_crawler.Dht.Id.{NodeId, distance, leading_zeros, bucket_index, zero_id}
use bt_dht_crawler.Dht.Routing.{
  find, RoutingNode, RoutingTable, new_table, insert, remove, get_node, find_closest, get_all_nodes,
  size, bucket_sizes,
}
use bt_dht_crawler.Dht.Routing.Invariant.{IsValid}
use bt_dht_crawler.Dht.Routing.History.{
  Call, inserts, removes, touches, apply_all, sum, history-IsValid, size_bounds,
}
use bt_dht_crawler.Dht.Routing.Closest.{IsClosest, find_closest-IsClosest}
use bt_dht_crawler.Dht.Routing.Lookup.{IsSeen, insert-get_node, get_node-remove}
use bt_dht_crawler.Dht.Routing.Refusal.{IsRefused, insert-false}
use bt_dht_crawler.Tests.Samples.{
  id_a, id_b, id_a-IsNodeId, id_b-IsNodeId, ip_a, table_a, table_a-IsValid,
}

abbrev calls_a : List Call
calls_a = inserts 1 id_a ip_a 6881 ∷ inserts 2 id_b ip_a 6882 ∷ touches 3 id_a ∷ removes id_b ∷ []

history-IsValid_example : IsValid (apply_all (new_table zero_id) calls_a)
history-IsValid_example = history-IsValid zero_id calls_a

find_closest-IsClosest_example :
    (rest : List RoutingNode) × IsClosest id_b 8 table_a (find_closest id_b 8 table_a) rest
unfolding insert new_table get_all_nodes find bucket_index leading_zeros distance
find_closest-IsClosest_example =
    find_closest-IsClosest id_b 8 table_a id_b-IsNodeId (id_a-IsNodeId, tt)

insert-get_node_example :
    (((insert 200 id_b ip_a 6882 table_a).1 ≡ true)
      × IsSeen 200 id_b ip_a 6882 (get_node id_b (insert 200 id_b ip_a 6882 table_a).0))
    ⊎ (((insert 200 id_b ip_a 6882 table_a).1 ≡ false)
        × ((insert 200 id_b ip_a 6882 table_a).0 ≡ table_a))
insert-get_node_example = insert-get_node 200 id_b ip_a 6882 table_a table_a-IsValid

get_node-remove_example :
    (get_node id_a (remove id_a table_a) ≡ none)
    × ((j : NodeId) → id_a ≢ j → get_node j (remove id_a table_a) ≡ get_node j table_a)
get_node-remove_example = get_node-remove id_a table_a table_a-IsValid

-- Eight nodes whose first bit is set, each seen at its number.
abbrev far_id : ℕ → NodeId
far_id k = 0x80 ∷ k ∷ 0 ∷ 0 ∷ 0 ∷ 0 ∷ 0 ∷ 0 ∷ 0 ∷ 0 ∷ 0 ∷ 0 ∷ 0 ∷ 0 ∷ 0 ∷ 0 ∷ 0 ∷ 0 ∷ 0 ∷ 0 ∷ []

abbrev filled : ℕ → RoutingTable
filled zero = new_table zero_id
filled (suc k) = (insert (suc k) (far_id (suc k)) ip_a 6881 (filled k)).0

abbrev full_table : RoutingTable
full_table = filled 8

-- A ninth node, when the oldest of them was seen 15 minutes ago.
full_refused : (insert 900_000_000_001 (far_id 9) ip_a 6881 full_table).1 ≡ false
unfolding insert new_table find bucket_index leading_zeros distance
full_refused = refl

insert-false_example : IsRefused 900_000_000_001 (far_id 9) full_table
insert-false_example = insert-false 900_000_000_001 (far_id 9) ip_a 6881 full_table full_refused

size_bounds_example :
    (size table_a ≡ length (get_all_nodes table_a))
    × (sum (bucket_sizes table_a) ≡ size table_a)
    × (size table_a ≤ 1280)
size_bounds_example = size_bounds table_a table_a-IsValid
