-- ===== src/Dht/Routing/Refusal.antt =====
-- When `Insert` returns false.
use bt_dht_crawler.Prelude.{
  not_ltb→le, ◌+◌, ◌-◌, ◌*◌, ℕ, ◌≤◌, ◌≡◌, ap, ◌∙◌, false, [], ◌∷◌, ◌++◌, Bytes, bytes_eq,
  bytes_eq→eq, Option-cases, length, All, ltb, Bool-cases, inl, inr, ◌⊎◌, arith, none, some,
}
use bt_dht_crawler.Dht.Id.{NodeId, bucket_index}
use bt_dht_crawler.Dht.Routing.{
  node_timeout, RoutingNode, Bucket, RoutingTable, bucket_size, find, without, is_stale,
  replace_stale, insert_full, insert_bucket, bucket_at, insert, get_node, put_bucket,
}

-- Seen within the last 15 minutes, of 60 * 10^9 nanoseconds each.
abbrev pub IsFresh : ℕ → RoutingNode → Type 0
IsFresh now n = now ≤ n.last_seen + 15 * 60_000_000_000

replace_stale-none :
    (now : ℕ) (fresh : RoutingNode) (b : Bucket)
    → replace_stale now fresh b ≡ none
    → All (IsFresh now) b
unfolding replace_stale
replace_stale-none now fresh [] h = tt
replace_stale-none now fresh (n ∷ b) h = elim (Bool-cases (is_stale now n)) [
  | inl e ↦ absurd (ground arith)
  | inr e ↦ (
    omega (arith, not_ltb→le node_timeout (now - n.last_seen) e),
    replace_stale-none now fresh b (ground arith),
  )
]

insert_full-none :
    (now : ℕ) (fresh : RoutingNode) (b : Bucket)
    → insert_full now fresh b ≡ none
    → (bucket_size ≤ length b) × All (IsFresh now) b
unfolding insert_full
insert_full-none now fresh b h = elim (Bool-cases (ltb (length b) bucket_size)) [
  | inl e ↦ absurd (ground arith)
  | inr e ↦ (ground arith, replace_stale-none now fresh b (ground arith))
]

-- `IsRefused now id t`: it is the table's own identifier, or it is not known and its bucket is full of
-- nodes seen within the last 15 minutes.
abbrev pub IsRefused : ℕ → NodeId → RoutingTable → Type 0
IsRefused now id t =
    (id ≡ t.local_id)
    ⊎ ((get_node id t ≡ none)
        × (bucket_size ≤ length (bucket_at t.buckets (bucket_index t.local_id id)))
        × All (IsFresh now) (bucket_at t.buckets (bucket_index t.local_id id)))

-- `Insert` returns false only for the table's own identifier, and for an unknown one whose bucket is
-- full of nodes seen within the last 15 minutes.
pub insert-false :
    (now : ℕ) (id : NodeId) (ip : Bytes) (port : ℕ) (t : RoutingTable)
    → (insert now id ip port t).1 ≡ false
    → IsRefused now id t
unfolding insert
insert-false now id ip port t h = elim (Bool-cases (bytes_eq id t.local_id)) [
  | inl e ↦ inl (bytes_eq→eq id t.local_id e)
  | inr e ↦ inr (full (rw e at h))
]
  where
    b : Bucket
    b = bucket_at t.buckets (bucket_index t.local_id id)

    fresh : RoutingNode
    fresh = record { id = id; ip = ip; port = port; last_seen = now }

    full :
        (put_bucket t (bucket_index t.local_id id) (insert_bucket now fresh b)).1 ≡ false
        → (get_node id t ≡ none) × (bucket_size ≤ length b) × All (IsFresh now) b
    full k = elim (Option-cases (find id b)) [
      | inl e ↦
          let gone : insert_bucket now fresh b ≡ insert_full now fresh b =
            unfold insert_bucket in rw (e, insert_bucket) in
          let failed : insert_full now fresh b ≡ none =
            elim (Option-cases (insert_full now fresh b)) [
              | inl z ↦ z
              | inr (c, z) ↦
                  absurd
                    (cc (ap (λ r. (put_bucket t (bucket_index t.local_id id) r).1) (gone ∙ z), k))
            ] in
          let (many, all_fresh) = insert_full-none now fresh b failed in
          (unfold get_node in e, many, all_fresh)
      | inr (old, e) ↦
          let done : insert_bucket now fresh b
              ≡ some (without id b ++ (record old { ip = ip; port = port; last_seen = now } ∷ [])) =
            unfold insert_bucket in rw (e, insert_bucket) in
          absurd (cc (ap (λ r. (put_bucket t (bucket_index t.local_id id) r).1) done, k))
    ]
