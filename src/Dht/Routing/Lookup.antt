-- ===== src/Dht/Routing/Lookup.antt =====
-- Looking a node up after the table changed.
use bt_dht_crawler.Prelude.{
  ℕ, zero, suc, ◌<◌, ◌≡◌, ◌≢◌, refl, sym, ap, ◌∙◌, subst, true, false, List, [], ◌∷◌, ◌++◌, Bytes,
  bytes_eq, bytes_eq→eq, eq→bytes_eq, bytes_eq_refl, Option-cases, length, ltb, Bool-cases, inl,
  inr, ◌⊎◌, arith, Option, none, some,
}
use bt_dht_crawler.Prelude.Lists.{set}
use native.Mathlib.Decide.{ℕ_discrete}
use bt_dht_crawler.Dht.Id.{NodeId, bucket_index}
use bt_dht_crawler.Dht.Id.Bucket.{bucket_index-lt}
use bt_dht_crawler.Dht.Routing.{
  RoutingNode, Bucket, RoutingTable, bucket_size, find, without, is_stale, replace_stale,
  insert_full, insert_bucket, bucket_at, insert, remove, get_node, put_bucket,
}
use bt_dht_crawler.Dht.Routing.Loops.{Holds, Without, without-Without, find-id, find-none-Without}
use bt_dht_crawler.Dht.Routing.Invariant.{IsGoodBucket, IsValid}

pub Without-find : (id : NodeId) (b : Bucket) → Without id b → find id b ≡ none
unfolding find
Without-find id [] w = refl
Without-find id (n ∷ b) w = elim (Bool-cases (bytes_eq n.id id)) [
  | inl e ↦ absurd (w.0 (bytes_eq→eq n.id id e))
  | inr e ↦ rw e (Without-find id b w.1)
]

find_last :
    (id : NodeId) (b : Bucket) (n : RoutingNode)
    → Without id b
    → n.id ≡ id
    → find id (b ++ (n ∷ [])) ≡ some n
unfolding find
find_last id [] n w e = rw (eq→bytes_eq n.id id e)
find_last id (m ∷ b) n w e = elim (Bool-cases (bytes_eq m.id id)) [
  | inl c ↦ absurd (w.0 (bytes_eq→eq m.id id c))
  | inr c ↦ rw c (find_last id b n w.1 e)
]

find-replace_stale :
    (now : ℕ) (fresh : RoutingNode) (b : Bucket)
    → Without fresh.id b
    → Holds (λ c. find fresh.id c ≡ some fresh) (replace_stale now fresh b)
unfolding replace_stale find
find-replace_stale now fresh [] w = tt
find-replace_stale now fresh (n ∷ b) w = elim (Bool-cases (is_stale now n)) [
  | inl e ↦ rw (e, bytes_eq_refl fresh.id) refl
  | inr e ↦ rw e (keep (replace_stale now fresh b) (find-replace_stale now fresh b w.1))
]
  where
    keep :
        (r : Option Bucket)
        → Holds (λ c. find fresh.id c ≡ some fresh) r
        → Holds
            (λ c. find fresh.id c ≡ some fresh)
            (elim r [ none ↦ none | some ms ↦ some (n ∷ ms) ])
    keep none k = tt
    keep (some ms) k = elim (Bool-cases (bytes_eq n.id fresh.id)) [
      | inl c ↦ absurd (w.0 (bytes_eq→eq n.id fresh.id c))
      | inr c ↦ rw c k
    ]

-- The node under an identifier, as `Insert` leaves it.
abbrev pub IsSeen : ℕ → NodeId → Bytes → ℕ → Option RoutingNode → Type 0
IsSeen now id ip port o =
    (n : RoutingNode) × (o ≡ some n)
    × (n.id ≡ id)
    × (n.ip ≡ ip)
    × (n.port ≡ port)
    × (n.last_seen ≡ now)

find-insert_full :
    (now : ℕ) (fresh : RoutingNode) (b : Bucket)
    → Without fresh.id b
    → Holds (λ c. find fresh.id c ≡ some fresh) (insert_full now fresh b)
unfolding insert_full
find-insert_full now fresh b w = elim (Bool-cases (ltb (length b) bucket_size)) [
  | inl e ↦ rw e (find_last fresh.id b fresh w refl)
  | inr e ↦ rw e (find-replace_stale now fresh b w)
]

find-insert_bucket :
    (local : NodeId) (i now : ℕ) (fresh : RoutingNode) (b : Bucket)
    → IsGoodBucket local i b
    → fresh.last_seen ≡ now
    → Holds
        (λ c. IsSeen now fresh.id fresh.ip fresh.port (find fresh.id c))
        (insert_bucket now fresh b)
unfolding insert_bucket
find-insert_bucket local i now fresh b g t = elim (Option-cases (find fresh.id b)) [
  | inl e ↦
      rw (e, insert_bucket)
        (seen (insert_full now fresh b)
          (find-insert_full now fresh b (find-none-Without fresh.id b e)))
  | inr (old, e) ↦
      let moved : RoutingNode = record old { ip = fresh.ip; port = fresh.port; last_seen = now } in
      let same : moved.id ≡ fresh.id = find-id fresh.id b old e in
      rw (e, insert_bucket)
        (
          moved,
          find_last fresh.id (without fresh.id b) moved (without-Without fresh.id b g.apart) same,
          same,
          refl,
          refl,
          refl,
        )
]
  where
    seen :
        (r : Option Bucket)
        → Holds (λ c. find fresh.id c ≡ some fresh) r
        → Holds (λ c. IsSeen now fresh.id fresh.ip fresh.port (find fresh.id c)) r
    seen none h = tt
    seen (some c) h = (fresh, h, refl, refl, refl, t)

bucket_at-set_self :
    (bs : List Bucket) (i : ℕ) (b : Bucket) → i < length bs → bucket_at (set bs i b) i ≡ b
bucket_at-set_self [] i b h = absurd (omega arith)
bucket_at-set_self (c ∷ bs) zero b h = refl
bucket_at-set_self (c ∷ bs) (suc i) b h = bucket_at-set_self bs i b (omega arith)

bucket_at-set_ne :
    (bs : List Bucket) (i j : ℕ) (b : Bucket) → i ≢ j → bucket_at (set bs i b) j ≡ bucket_at bs j
bucket_at-set_ne [] i j b h = refl
bucket_at-set_ne (c ∷ bs) zero zero b h = absurd (h refl)
bucket_at-set_ne (c ∷ bs) zero (suc j) b h = refl
bucket_at-set_ne (c ∷ bs) (suc i) zero b h = refl
bucket_at-set_ne (c ∷ bs) (suc i) (suc j) b h = bucket_at-set_ne bs i j b (λ e. h (ap suc e))

-- On a well-formed table `Insert` either returns true, and `GetNode` then finds the node with the
-- new address and time, or returns false and leaves the table as it was.
pub insert-get_node :
    (now : ℕ) (id : NodeId) (ip : Bytes) (port : ℕ) (t : RoutingTable)
    → IsValid t
    → (((insert now id ip port t).1 ≡ true)
        × IsSeen now id ip port (get_node id (insert now id ip port t).0))
      ⊎ (((insert now id ip port t).1 ≡ false) × ((insert now id ip port t).0 ≡ t))
unfolding insert get_node
insert-get_node now id ip port t v = elim (Bool-cases (bytes_eq id t.local_id)) [
  | inl e ↦ rw e (inr (refl, refl))
  | inr e ↦ rw e (
      put (insert_bucket now fresh (bucket_at t.buckets i))
        (find-insert_bucket t.local_id i now fresh (bucket_at t.buckets i) (v.each i) refl))
]
  where
    i : ℕ
    i = bucket_index t.local_id id

    fresh : RoutingNode
    fresh = record { id = id; ip = ip; port = port; last_seen = now }

    put :
        (r : Option Bucket)
        → Holds (λ c. IsSeen now id ip port (find id c)) r
        → (((put_bucket t i r).1 ≡ true)
            × IsSeen now id ip port (
                find id (
                  bucket_at
                    (put_bucket t i r).0.buckets
                    (bucket_index (put_bucket t i r).0.local_id id))))
          ⊎ (((put_bucket t i r).1 ≡ false) × ((put_bucket t i r).0 ≡ t))
    put none h = inr (refl, refl)
    put (some c) h =
        let small = bucket_index-lt t.local_id id in
        let n = v.count in inl (refl, rw (bucket_at-set_self t.buckets i c (omega arith)) h)

find-without_ne : (id j : NodeId) (b : Bucket) → id ≢ j → find j (without id b) ≡ find j b
unfolding find without
find-without_ne id j [] h = refl
find-without_ne id j (n ∷ b) h = elim (Bool-cases (bytes_eq n.id id)) [
  | inl e ↦ elim (Bool-cases (bytes_eq n.id j)) [
    | inl c ↦ absurd (h (sym (bytes_eq→eq n.id id e) ∙ bytes_eq→eq n.id j c))
    | inr c ↦ rw (e, c) refl
  ]
  | inr e ↦ elim (Bool-cases (bytes_eq n.id j)) [
    | inl c ↦ rw (e, c) refl
    | inr c ↦ rw (e, c) (find-without_ne id j b h)
  ]
]

-- On a well-formed table, after `Remove` the identifier is not found, and every other look-up is
-- as before.
pub get_node-remove :
    (id : NodeId) (t : RoutingTable)
    → IsValid t
    → (get_node id (remove id t) ≡ none)
      × ((j : NodeId) → id ≢ j → get_node j (remove id t) ≡ get_node j t)
get_node-remove id t v = (unfold get_node remove in here, unfold get_node remove in there)
  where
    i : ℕ
    i = bucket_index t.local_id id

    kept : Bucket
    kept = without id (bucket_at t.buckets i)

    here : find id (bucket_at (set t.buckets i kept) i) ≡ none
    here =
        let small = bucket_index-lt t.local_id id in
        let n = v.count in
        rw (bucket_at-set_self t.buckets i kept (omega arith))
          (Without-find id kept (without-Without id (bucket_at t.buckets i) (v.each i).apart))

    there :
        (j : NodeId)
        → id ≢ j
        → find j (bucket_at (set t.buckets i kept) (bucket_index t.local_id j))
          ≡ find j (bucket_at t.buckets (bucket_index t.local_id j))
    there j h = elim (ℕ_discrete i (bucket_index t.local_id j)) [
      | yes e ↦
          let small = bucket_index-lt t.local_id id in
          let n = v.count in
          subst (λ k. find j (bucket_at (set t.buckets i kept) k) ≡ find j (bucket_at t.buckets k))
            e
            (rw (bucket_at-set_self t.buckets i kept (omega arith))
              (find-without_ne id j (bucket_at t.buckets i) h))
      | no e ↦ rw (bucket_at-set_ne t.buckets i (bucket_index t.local_id j) kept e)
    ]
