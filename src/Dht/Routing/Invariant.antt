-- ===== src/Dht/Routing/Invariant.antt =====
-- The well-formedness of the routing table: every operation preserves it.
use bt_dht_crawler.Prelude.{
  ℕ, zero, suc, ◌≤◌, ltb→lt, ◌≡◌, ◌≢◌, refl, ◌∙◌, List, [], ◌∷◌, ◌++◌, Bytes, bytes_eq, eq→bytes_eq,
  Option-cases, length, length-append, All, Pairwise, ltb, Bool-cases, inl, inr, arith, Option,
  none, some,
}
use bt_dht_crawler.Prelude.Lists.{set, length-set, replicate, length-replicate}
use bt_dht_crawler.Dht.Id.{NodeId, bucket_index}
use bt_dht_crawler.Dht.Routing.{
  RoutingNode, Bucket, RoutingTable, bucket_size, num_buckets, find, without, replace_stale,
  insert_full, insert_bucket, touch_bucket, bucket_at, new_table, insert, remove, touch, put_bucket,
}
use bt_dht_crawler.Dht.Routing.Stale.{
  All-last, Pairwise-last, replace_stale-All, replace_stale-size, replace_stale-apart,
}
use bt_dht_crawler.Dht.Routing.Loops.{
  Holds, ApartNodes, Without, find-id, find-none-Without, without-All, without-Pairwise,
  without-Without, length-without, length-without_found,
}

-- A bucket holds at most eight nodes, each in the bucket of its identifier, none with the table's own
-- identifier, and no two with the same.
pub record IsGoodBucket (local : NodeId) (i : ℕ) (b : Bucket) : Type 0 where
  pub size : length b ≤ bucket_size
  pub placed : All (λ n. (bucket_index local n.id ≡ i) × (n.id ≢ local)) b
  pub apart : Pairwise ApartNodes b

pub record IsValid (t : RoutingTable) : Type 0 where
  pub count : length t.buckets ≡ num_buckets
  pub each : (i : ℕ) → IsGoodBucket t.local_id i (bucket_at t.buckets i)

-- Updating one bucket.
bucket_at-set :
    (P : ℕ → Bucket → Type 0) (bs : List Bucket) (i j : ℕ) (b : Bucket)
    → P i b
    → P j (bucket_at bs j)
    → P j (bucket_at (set bs i b) j)
bucket_at-set P [] i j b h k = k
bucket_at-set P (c ∷ bs) zero zero b h k = h
bucket_at-set P (c ∷ bs) zero (suc j) b h k = k
bucket_at-set P (c ∷ bs) (suc i) zero b h k = k
bucket_at-set P (c ∷ bs) (suc i) (suc j) b h k = bucket_at-set (λ n. P (suc n)) bs i j b h k

set-IsValid :
    (t : RoutingTable) (i : ℕ) (b : Bucket)
    → IsValid t
    → IsGoodBucket t.local_id i b
    → IsValid (record t { buckets = set t.buckets i b })
set-IsValid t i b v g = record {
  count = length-set t.buckets i b ∙ v.count;
  each = λ j. bucket_at-set (IsGoodBucket t.local_id) t.buckets i j b g (v.each j);
}

insert_full-IsGood :
    (local : NodeId) (i now : ℕ) (fresh : RoutingNode) (b : Bucket)
    → IsGoodBucket local i b
    → (bucket_index local fresh.id ≡ i) × (fresh.id ≢ local)
    → Without fresh.id b
    → Holds (IsGoodBucket local i) (insert_full now fresh b)
unfolding insert_full
insert_full-IsGood local i now fresh b g p w = elim (Bool-cases (ltb (length b) bucket_size)) [
  | inl e ↦ rw e (record {
    size = omega (arith, length-append b (fresh ∷ []), ltb→lt _ _ e);
    placed = All-last _ b fresh g.placed p;
    apart = Pairwise-last b fresh g.apart w;
  })
  | inr e ↦ rw e (
      together (replace_stale now fresh b) (replace_stale-size now fresh b)
        (replace_stale-All (λ n. (bucket_index local n.id ≡ i) × (n.id ≢ local)) now fresh b
          g.placed p)
        (replace_stale-apart now fresh b g.apart w))
]
  where
    together :
        (r : Option Bucket)
        → Holds (λ c. length c ≡ length b) r
        → Holds (All (λ n. (bucket_index local n.id ≡ i) × (n.id ≢ local))) r
        → Holds (Pairwise ApartNodes) r
        → Holds (IsGoodBucket local i) r
    together none s q a = tt
    together (some c) s q a = record { size = let z = g.size in omega arith; placed = q; apart = a }

-- The node that `Insert` found, with its new address, behind the others.
moved-IsGood :
    (local : NodeId) (i : ℕ) (b : Bucket) (old moved : RoutingNode) (id : NodeId)
    → IsGoodBucket local i b
    → find id b ≡ some old
    → moved.id ≡ id
    → (bucket_index local id ≡ i) × (id ≢ local)
    → IsGoodBucket local i (without id b ++ (moved ∷ []))
moved-IsGood local i b old moved id g e same p = record {
  size =
      let z = g.size in
      omega (arith, length-append (without id b) (moved ∷ []), length-without_found id b old e);
  placed = All-last _ (without id b) moved (without-All _ id b g.placed) (rw same p);
  apart =
      Pairwise-last (without id b) moved (without-Pairwise id b g.apart)
        (rw same (without-Without id b g.apart));
}

insert_bucket-IsGood :
    (local : NodeId) (i now : ℕ) (fresh : RoutingNode) (b : Bucket)
    → IsGoodBucket local i b
    → (bucket_index local fresh.id ≡ i) × (fresh.id ≢ local)
    → Holds (IsGoodBucket local i) (insert_bucket now fresh b)
unfolding insert_bucket
insert_bucket-IsGood local i now fresh b g p = elim (Option-cases (find fresh.id b)) [
  | inl e ↦
      rw (e, insert_bucket)
        (insert_full-IsGood local i now fresh b g p (find-none-Without fresh.id b e))
  | inr (old, e) ↦
      rw (e, insert_bucket)
        (moved-IsGood local i b old
          (record old { ip = fresh.ip; port = fresh.port; last_seen = now }) fresh.id g e
          (find-id fresh.id b old e) p)
]

without-IsGood :
    (local : NodeId) (i : ℕ) (b : Bucket) (id : NodeId)
    → IsGoodBucket local i b
    → IsGoodBucket local i (without id b)
without-IsGood local i b id g = record {
  size = let z = g.size in omega (arith, length-without id b);
  placed = without-All _ id b g.placed;
  apart = without-Pairwise id b g.apart;
}

-- A touched bucket holds the same identifiers.
touch_bucket-All :
    (P : NodeId → Type 0) (now : ℕ) (id : NodeId) (b : Bucket)
    → All (λ n. P n.id) b
    → All (λ n. P n.id) (touch_bucket now id b)
unfolding touch_bucket
touch_bucket-All P now id [] h = tt
touch_bucket-All P now id (n ∷ b) h = elim (Bool-cases (bytes_eq n.id id)) [
  | inl e ↦ rw e h
  | inr e ↦ rw e (h.0, touch_bucket-All P now id b h.1)
]

touch_bucket-apart :
    (now : ℕ) (id : NodeId) (b : Bucket)
    → Pairwise ApartNodes b
    → Pairwise ApartNodes (touch_bucket now id b)
unfolding touch_bucket
touch_bucket-apart now id [] h = tt
touch_bucket-apart now id (n ∷ b) h = elim (Bool-cases (bytes_eq n.id id)) [
  | inl e ↦ rw e h
  | inr e ↦ rw e (touch_bucket-All (λ j. n.id ≢ j) now id b h.0, touch_bucket-apart now id b h.1)
]

length-touch_bucket :
    (now : ℕ) (id : NodeId) (b : Bucket) → length (touch_bucket now id b) ≡ length b
unfolding touch_bucket
length-touch_bucket now id [] = refl
length-touch_bucket now id (n ∷ b) = ground (arith, length-touch_bucket now id b)

touch_bucket-IsGood :
    (local : NodeId) (i now : ℕ) (b : Bucket) (id : NodeId)
    → IsGoodBucket local i b
    → IsGoodBucket local i (touch_bucket now id b)
touch_bucket-IsGood local i now b id g = record {
  size = let z = g.size in omega (arith, length-touch_bucket now id b);
  placed = touch_bucket-All (λ j. (bucket_index local j ≡ i) × (j ≢ local)) now id b g.placed;
  apart = touch_bucket-apart now id b g.apart;
}

bucket_at-replicate : (n i : ℕ) → bucket_at (replicate n []) i ≡ []
bucket_at-replicate zero i = refl
bucket_at-replicate (suc n) zero = refl
bucket_at-replicate (suc n) (suc i) = bucket_at-replicate n i

pub new_table-IsValid : (local : NodeId) → IsValid (new_table local)
unfolding new_table
new_table-IsValid local = record {
  count = length-replicate {A = Bucket} num_buckets [];
  each = λ i.
      rw (bucket_at-replicate num_buckets i)
        (record { size = omega arith; placed = tt; apart = tt });
}

pub insert-IsValid :
    (now : ℕ) (id : NodeId) (ip : Bytes) (port : ℕ) (t : RoutingTable)
    → IsValid t
    → IsValid (insert now id ip port t).0
unfolding insert
insert-IsValid now id ip port t v = elim (Bool-cases (bytes_eq id t.local_id)) [
  | inl e ↦ rw e v
  | inr e ↦ rw e (
      put (insert_bucket now fresh (bucket_at t.buckets i)) (
        insert_bucket-IsGood t.local_id i now fresh (bucket_at t.buckets i) (v.each i)
          (refl, λ q. cc (e, eq→bytes_eq id t.local_id q))))
]
  where
    i : ℕ
    i = bucket_index t.local_id id

    fresh : RoutingNode
    fresh = record { id = id; ip = ip; port = port; last_seen = now }

    put : (r : Option Bucket) → Holds (IsGoodBucket t.local_id i) r → IsValid (put_bucket t i r).0
    put none g = v
    put (some b) g = set-IsValid t i b v g

pub remove-IsValid : (id : NodeId) (t : RoutingTable) → IsValid t → IsValid (remove id t)
unfolding remove
remove-IsValid id t v =
    let i = bucket_index t.local_id id in
    set-IsValid t i _ v (without-IsGood t.local_id i (bucket_at t.buckets i) id (v.each i))

pub touch-IsValid :
    (now : ℕ) (id : NodeId) (t : RoutingTable) → IsValid t → IsValid (touch now id t)
unfolding touch
touch-IsValid now id t v =
    let i = bucket_index t.local_id id in
    set-IsValid t i _ v (touch_bucket-IsGood t.local_id i now (bucket_at t.buckets i) id (v.each i))
