-- ===== src/Dht/Routing/History.antt =====
-- Any history of calls on a new table.
use bt_dht_crawler.Prelude.{
  ℕ, suc, ◌+◌, ◌*◌, ◌≤◌, ◌≡◌, refl, List, [], ◌∷◌, map, Bytes, length, length-append, arith,
}
use bt_dht_crawler.Dht.Id.{NodeId}
use bt_dht_crawler.Dht.Routing.{
  Bucket, RoutingTable, bucket_at, new_table, insert, remove, touch, get_all_nodes, all_nodes, size,
  count_nodes, bucket_sizes,
}
use bt_dht_crawler.Dht.Routing.Invariant.{
  IsValid, new_table-IsValid, insert-IsValid, remove-IsValid, touch-IsValid,
}

-- The calls that change the table.
pub data Call : Type 0 where
  inserts : ℕ → NodeId → Bytes → ℕ → Call
  removes : NodeId → Call
  touches : ℕ → NodeId → Call

unfoldable pub apply : RoutingTable → Call → RoutingTable
unfolding insert remove touch
apply t (inserts now id ip port) = (insert now id ip port t).0
apply t (removes id) = remove id t
apply t (touches now id) = touch now id t

unfoldable pub apply_all : RoutingTable → List Call → RoutingTable
unfolding apply
apply_all t [] = t
apply_all t (c ∷ cs) = apply_all (apply t c) cs

apply-IsValid : (t : RoutingTable) (c : Call) → IsValid t → IsValid (apply t c)
unfolding apply
apply-IsValid t (inserts now id ip port) v = insert-IsValid now id ip port t v
apply-IsValid t (removes id) v = remove-IsValid id t v
apply-IsValid t (touches now id) v = touch-IsValid now id t v

apply_all-IsValid : (t : RoutingTable) (cs : List Call) → IsValid t → IsValid (apply_all t cs)
unfolding apply_all
apply_all-IsValid t [] v = v
apply_all-IsValid t (c ∷ cs) v = apply_all-IsValid (apply t c) cs (apply-IsValid t c v)

-- After any calls of `Insert`, `Remove` and `Touch` on a new table it has 160 buckets, of at most eight
-- nodes each, every node in the bucket of its identifier, none with the table's own identifier, and
-- no two of a bucket with the same.
pub history-IsValid : (local : NodeId) (cs : List Call) → IsValid (apply_all (new_table local) cs)
history-IsValid local cs = apply_all-IsValid (new_table local) cs (new_table-IsValid local)

abbrev pub sum : List ℕ → ℕ
sum [] = 0
sum (n ∷ ns) = n + sum ns

count_all :
    (bs : List Bucket)
    → (count_nodes bs ≡ length (all_nodes bs)) × (sum (map length bs) ≡ count_nodes bs)
unfolding count_nodes all_nodes
count_all [] = (refl, refl)
count_all (b ∷ bs) =
    let (p, q) = count_all bs in (omega (arith, length-append b (all_nodes bs)), omega arith)

small_buckets :
    (bs : List Bucket) → ((i : ℕ) → length (bucket_at bs i) ≤ 8) → count_nodes bs ≤ 8 * length bs
unfolding count_nodes
small_buckets [] h = omega arith
small_buckets (b ∷ bs) h = omega (arith, h 0, small_buckets bs (λ i. h (suc i)))

-- `Size`, the sum of `BucketSizes` and the number of nodes of `GetAllNodes` agree, and are at most
-- 1280 in a well-formed table.
pub size_bounds :
    (t : RoutingTable)
    → IsValid t
    → (size t ≡ length (get_all_nodes t)) × (sum (bucket_sizes t) ≡ size t) × (size t ≤ 1280)
unfolding size get_all_nodes bucket_sizes
size_bounds t v =
    let (p, q) = count_all t.buckets in
    let n = v.count in (p, q, omega (arith, small_buckets t.buckets (λ i. (v.each i).size)))
