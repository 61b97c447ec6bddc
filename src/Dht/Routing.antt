-- ===== src/Dht/Routing.antt =====
-- internal/dht/routing.go: the Kademlia routing table. Nodes are values here: the pointers that a
-- lookup hands out are only read by their users. Each call takes the time as an argument.
pub mod Loops
pub mod Stale
pub mod Invariant
pub mod Lookup
pub mod Refusal
pub mod Closest
pub mod History
use bt_dht_crawler.Prelude.{
  ℕ, zero, suc, ◌+◌, ◌-◌, ◌*◌, ◌^◌, ◌≤◌, ◌<◌, ◌≡◌, ◌≢◌, refl, sym, ap, ap₂, ◌∙◌, subst, Bool, true,
  false, not, ◌&&◌, ◌||◌, ◌/◌, ◌%◌, List, [], ◌∷◌, ◌++◌, append_assoc, append-nil, map, Bytes,
  bytes_eq, bytes_eq→eq, length, length-append, take, drop, take-append, drop-append, All,
  All-append, Pairwise, Pairwise-middle, ltb, leb, ◌==◌, if◌then◌else◌, Outcome, ok, err, panic,
  Error, ◌>>=◌, Bool-cases, inl, inr, ◌⊎◌, arith, Option, none, some,
}
use bt_dht_crawler.Prelude.Lists.{get_elem?, set, replicate}
use bt_dht_crawler.Prelude.Int.{ℤ, pos, negsuc}
use bt_dht_crawler.Prelude.Sort.{sort_by}
use bt_dht_crawler.Dht.Id.{NodeId, less, distance, bucket_index}

-- `K`
abbrev pub bucket_size : ℕ
bucket_size = 8

-- `NumBuckets`
abbrev pub num_buckets : ℕ
num_buckets = 160

-- `NodeTimeout`: 15 minutes in nanoseconds.
abbrev pub node_timeout : ℕ
node_timeout = 900_000_000_000

pub record RoutingNode : Type 0 where
  pub id : NodeId
  pub ip : Bytes
  pub port : ℕ
  pub last_seen : ℕ

abbrev pub Bucket : Type 0
Bucket = List RoutingNode

pub record RoutingTable : Type 0 where
  pub local_id : NodeId
  pub buckets : List Bucket

-- `NewRoutingTable`
unfoldable pub new_table : NodeId → RoutingTable
new_table local = record { local_id = local; buckets = replicate num_buckets [] }

abbrev pub bucket_at : List Bucket → ℕ → Bucket
bucket_at bs i = elim (get_elem? bs i) [ none ↦ [] | some b ↦ b ]

-- The node of that identifier, if the loop finds one.
unfoldable pub find : NodeId → Bucket → Option RoutingNode
find id [] = none
find id (n ∷ ns) = if bytes_eq n.id id then some n else find id ns

-- `append(nodes[:i], nodes[i+1:]...)` at the first node of that identifier.
unfoldable pub without : NodeId → Bucket → Bucket
without id [] = []
without id (n ∷ ns) = if bytes_eq n.id id then ns else n ∷ without id ns

-- `time.Since(node.LastSeen) > NodeTimeout`
abbrev pub is_stale : ℕ → RoutingNode → Bool
is_stale now n = ltb node_timeout (now - n.last_seen)

-- The last loop of `Insert`: the first stale node is replaced.
unfoldable pub replace_stale : ℕ → RoutingNode → Bucket → Option Bucket
replace_stale now fresh [] = none
replace_stale now fresh (n ∷ ns) =
    let rest = replace_stale now fresh ns in
    if is_stale now n
    then some (fresh ∷ ns)
    else elim rest [ none ↦ none | some ms ↦ some (n ∷ ms) ]

-- What `Insert` does to the bucket; `none` stands for `return false`.
unfoldable pub insert_full : ℕ → RoutingNode → Bucket → Option Bucket
unfolding replace_stale
insert_full now fresh b =
    if ltb (length b) bucket_size then some (b ++ (fresh ∷ [])) else replace_stale now fresh b

unfoldable pub insert_bucket : ℕ → RoutingNode → Bucket → Option Bucket
unfolding insert_full
insert_bucket now fresh b = elim (find fresh.id b) [
  | some old ↦ some (
      without fresh.id b ++ (record old { ip = fresh.ip; port = fresh.port; last_seen = now } ∷ []))
  | none ↦ insert_full now fresh b
]

abbrev put_bucket : RoutingTable → ℕ → Option Bucket → RoutingTable × Bool
put_bucket t i none = (t, false)
put_bucket t i (some b) = (record t { buckets = set t.buckets i b }, true)

-- `Insert`
unfoldable pub insert : ℕ → NodeId → Bytes → ℕ → RoutingTable → RoutingTable × Bool
unfolding insert_bucket
insert now id ip port t =
    let i = bucket_index t.local_id id in
    let fresh : RoutingNode = record { id = id; ip = ip; port = port; last_seen = now } in
    if bytes_eq id t.local_id
    then (t, false)
    else put_bucket t i (insert_bucket now fresh (bucket_at t.buckets i))

-- `Remove`
unfoldable pub remove : NodeId → RoutingTable → RoutingTable
unfolding without
remove id t =
    let i = bucket_index t.local_id id in
    record t { buckets = set t.buckets i (without id (bucket_at t.buckets i)) }

-- The loops over all buckets that append their nodes: `GetAllNodes`.
unfoldable pub all_nodes : List Bucket → Bucket
all_nodes [] = []
all_nodes (b ∷ bs) = b ++ all_nodes bs

unfoldable pub get_all_nodes : RoutingTable → List RoutingNode
unfolding all_nodes
get_all_nodes t = all_nodes t.buckets

abbrev pub closer : NodeId → RoutingNode → RoutingNode → Bool
closer target a b = less (distance a.id target) (distance b.id target)

-- `FindClosest`
unfoldable pub find_closest : NodeId → ℕ → RoutingTable → List RoutingNode
unfolding all_nodes
find_closest target count t =
    let sorted = sort_by (closer target) (all_nodes t.buckets) in
    if ltb count (length sorted) then take count sorted else sorted

-- `GetNode`
unfoldable pub get_node : NodeId → RoutingTable → Option RoutingNode
unfolding find
get_node id t = find id (bucket_at t.buckets (bucket_index t.local_id id))

abbrev first_of_bucket : Bucket → Option RoutingNode
first_of_bucket [] = none
first_of_bucket (n ∷ ns) = some n

-- `RandomFromBucket`
unfoldable pub random_from_bucket : ℤ → RoutingTable → Option RoutingNode
random_from_bucket (negsuc i) t = none
random_from_bucket (pos i) t =
    if leb num_buckets i then none else first_of_bucket (bucket_at t.buckets i)

count_nodes : List Bucket → ℕ
count_nodes [] = 0
count_nodes (b ∷ bs) = length b + count_nodes bs

-- `Size`
unfoldable pub size : RoutingTable → ℕ
unfolding count_nodes
size t = count_nodes t.buckets

-- `BucketSizes`
unfoldable pub bucket_sizes : RoutingTable → List ℕ
bucket_sizes t = map length t.buckets

unfoldable pub touch_bucket : ℕ → NodeId → Bucket → Bucket
touch_bucket now id [] = []
touch_bucket now id (n ∷ ns) =
    if bytes_eq n.id id then record n { last_seen = now } ∷ ns else n ∷ touch_bucket now id ns

-- `Touch`
unfoldable pub touch : ℕ → NodeId → RoutingTable → RoutingTable
unfolding touch_bucket
touch now id t =
    let i = bucket_index t.local_id id in
    record t { buckets = set t.buckets i (touch_bucket now id (bucket_at t.buckets i)) }

-- `GetStaleNodes`: those seen before `now - max_age`.
unfoldable pub stale_nodes : ℕ → ℕ → List RoutingNode → List RoutingNode
stale_nodes now max_age [] = []
stale_nodes now max_age (n ∷ ns) =
    if ltb (n.last_seen + max_age) now
    then n ∷ stale_nodes now max_age ns
    else stale_nodes now max_age ns

unfoldable pub get_stale_nodes : ℕ → ℕ → RoutingTable → List RoutingNode
unfolding stale_nodes all_nodes
get_stale_nodes now max_age t = stale_nodes now max_age (all_nodes t.buckets)
