-- ===== src/Crawler/Jobs/Ending.antt =====
-- How a job ends.
use bt_dht_crawler.Prelude.{
  ℕ, suc, ◌≤◌, ◌≡◌, refl, true, false, not, ◌&&◌, ◌%◌, List, [], ◌∷◌, Bytes, bytes_eq, Option-cases,
  length, ltb, le→not_ltb, ◌==◌, Outcome, ok, err, panic, Bool-cases, inl, inr, ◌⊎◌, arith, some,
}
use bt_dht_crawler.Prelude.Elements.{IsIn}
use bt_dht_crawler.Dht.Id.{decode_hex}
use bt_dht_crawler.Dht.Node.{add_one}
use bt_dht_crawler.Crawler.Queue.{complete, loaded, delete}
use bt_dht_crawler.Crawler.Jobs.{
  JobCalls, JobState, Tried, hash_array, peers_to_try, try_peers, save_result, run_peers, run_job,
  process_job, is_short, completed,
}

-- A try of one of these peers downloaded `m`.
abbrev pub Downloaded : (C : JobCalls) → Bytes → List Bytes → C.Meta → Type 0
Downloaded C hash peers m =
    (i : ℕ) × (addr : Bytes) × IsIn addr peers × (C.download i hash addr ≡ some m)

-- The counters behind a job that counted a success, with a torrent which a peer of the job had and the database
-- took; a failure; or nothing, as the context was done.
abbrev pub IsCounted : (C : JobCalls) → Bytes → Bytes → JobState → JobState → Type 0
IsCounted C info_hash peer_addr s t =
    ((t.success_count ≡ add_one s.success_count)
      × (t.fail_count ≡ s.fail_count)
      × (t.deleted ≡ info_hash ∷ s.deleted)
      × (bs : Bytes) × (m : C.Meta) × (decode_hex info_hash ≡ ok bs)
      × Downloaded C (hash_array bs) (peers_to_try C (hash_array bs) peer_addr) m
      × (C.insert_torrent info_hash m ≡ true))
    ⊎ (((t.success_count ≡ s.success_count)
          × (t.fail_count ≡ add_one s.fail_count)
          × (t.deleted ≡ s.deleted))
        ⊎ ((t.success_count ≡ s.success_count)
            × (t.fail_count ≡ s.fail_count)
            × (t.deleted ≡ s.deleted)
            × (i : ℕ) × (C.cancelled i ≡ true)))

-- The hash is no longer in flight, the items of the queue are the same, and the job is counted.
pub record IsEnded (C : JobCalls) (info_hash peer_addr : Bytes) (s t : JobState) : Type 0 where
  pub gone : loaded info_hash t.queue.in_flight ≡ false
  pub kept : t.queue.items ≡ s.queue.items
  pub counted : IsCounted C info_hash peer_addr s t

loaded-delete : (h : Bytes) (l : List Bytes) → loaded h (delete h l) ≡ false
unfolding loaded delete
loaded-delete h [] = refl
loaded-delete h (x ∷ l) = elim (Bool-cases (bytes_eq h x)) [
  | inl e ↦ rw e (loaded-delete h l)
  | inr e ↦ rw e (ground (arith, e, loaded-delete h l))
]

module _ (C : JobCalls) where
  -- Why the loop ended.
  abbrev Explained : Bytes → List Bytes → Tried C.Meta → Type 0
  Explained hash peers (Tried.found m) = Downloaded C hash peers m
  Explained hash peers Tried.not_found = Unit {0}
  Explained hash peers Tried.stopped = (j : ℕ) × (C.cancelled j ≡ true)
  Explained hash peers Tried.crashed = ⊥

  Explained-tail :
      (hash p : Bytes) (ps : List Bytes) (r : Tried C.Meta)
      → Explained hash ps r
      → Explained hash (p ∷ ps) r
  Explained-tail hash p ps (Tried.found m) (i, addr, among, got) = (i, addr, inr among, got)
  Explained-tail hash p ps Tried.not_found h = h
  Explained-tail hash p ps Tried.stopped h = h
  Explained-tail hash p ps Tried.crashed h = h

  try_peers-Explained :
      (info_hash hash : Bytes) (i : ℕ) (ps : List Bytes)
      → is_short info_hash ≡ false
      → Explained hash ps (try_peers C info_hash hash i ps)
  unfolding try_peers
  try_peers-Explained info_hash hash i [] long = tt
  try_peers-Explained info_hash hash i (p ∷ ps) long = elim (Bool-cases (C.cancelled i)) [
    | inl c ↦ rw c (i, c)
    | inr c ↦ elim (Option-cases (C.download i hash p)) [
      | inl d ↦
          let quiet : (ltb i 2 && not (C.busy i) && is_short info_hash) ≡ false =
            ground (arith, long) in
          rw (c, d, quiet)
            (Explained-tail hash p ps (try_peers C info_hash hash (suc i) ps)
              (try_peers-Explained info_hash hash (suc i) ps long))
      | inr (m, d) ↦ rw (c, d, long) (i, p, inl refl, d)
    ]
  ]

  abbrev Ended : Bytes → Bytes → JobState → Outcome JobState → Type 0
  Ended info_hash peer_addr s r =
      (t : JobState) × (r ≡ ok t) × IsEnded C info_hash peer_addr s (completed C info_hash t)

  Ended-failed :
      (info_hash peer_addr : Bytes) (s : JobState)
      → Ended info_hash peer_addr s (ok (record s { fail_count = add_one s.fail_count }))
  unfolding complete
  Ended-failed info_hash peer_addr s = (
    record s { fail_count = add_one s.fail_count },
    refl,
    record {
      gone = loaded-delete info_hash s.queue.in_flight;
      kept = refl;
      counted = inr (inl (refl, refl, refl));
    },
  )

  save_result-Ended :
      (info_hash peer_addr bs : Bytes) (r : Tried C.Meta) (s : JobState)
      → is_short info_hash ≡ false
      → decode_hex info_hash ≡ ok bs
      → Explained (hash_array bs) (peers_to_try C (hash_array bs) peer_addr) r
      → Ended info_hash peer_addr s (save_result C info_hash r s)
  unfolding save_result complete
  save_result-Ended info_hash peer_addr bs Tried.stopped s long d h = (
    s,
    refl,
    record {
      gone = loaded-delete info_hash s.queue.in_flight;
      kept = refl;
      counted = inr (inr (refl, refl, refl, h.0, h.1));
    },
  )
  save_result-Ended info_hash peer_addr bs Tried.crashed s long d h = absurd h
  save_result-Ended info_hash peer_addr bs Tried.not_found s long d h =
      let quiet : ((s.fail_count % 100 == 0) && is_short info_hash) ≡ false =
        ground (arith, long) in
      rw quiet (Ended-failed info_hash peer_addr s)
  save_result-Ended info_hash peer_addr bs (Tried.found m) s long d h =
      elim (Bool-cases (C.insert_torrent info_hash m)) [
        | inl e ↦ rw e (
          record s { deleted = info_hash ∷ s.deleted; success_count = add_one s.success_count },
          refl,
          record {
            gone = loaded-delete info_hash s.queue.in_flight;
            kept = refl;
            counted = inl (refl, refl, refl, bs, m, d, h, e);
          },
        )
        | inr e ↦ rw e (Ended-failed info_hash peer_addr s)
      ]

  run_peers-Ended :
      (info_hash peer_addr bs : Bytes) (peers : List Bytes) (s : JobState)
      → is_short info_hash ≡ false
      → decode_hex info_hash ≡ ok bs
      → peers_to_try C (hash_array bs) peer_addr ≡ peers
      → Ended info_hash peer_addr s (run_peers C info_hash (hash_array bs) peers s)
  unfolding run_peers
  run_peers-Ended info_hash peer_addr bs [] s long d e = Ended-failed info_hash peer_addr s
  run_peers-Ended info_hash peer_addr bs (p ∷ ps) s long d e =
      save_result-Ended info_hash peer_addr bs (try_peers C info_hash (hash_array bs) 0 (p ∷ ps)) s
        long d (rw e (try_peers-Explained info_hash (hash_array bs) 0 (p ∷ ps) long))

  run_job-Ended :
      (info_hash peer_addr : Bytes) (s : JobState)
      → is_short info_hash ≡ false
      → Ended info_hash peer_addr s (run_job C info_hash peer_addr s)
  unfolding run_job
  run_job-Ended info_hash peer_addr s long = by_hash (decode_hex info_hash) refl
    where
      by_hash :
          (r : Outcome Bytes)
          → decode_hex info_hash ≡ r
          → Ended info_hash peer_addr s (run_job C info_hash peer_addr s)
      by_hash (ok bs) e =
          rw (run_job, e)
            (run_peers-Ended info_hash peer_addr bs (peers_to_try C (hash_array bs) peer_addr) s
              long e refl)
      by_hash (err x) e = rw (run_job, e) (Ended-failed info_hash peer_addr s)
      by_hash panic e = rw (run_job, e) (Ended-failed info_hash peer_addr s)

-- Every job whose hash has at least the eight characters that the log prints ends, without a panic, with its hash
-- out of flight and the queue's items as they were; and it counts one success, with a torrent that one of the peers
-- tried had for this hash and the database took, and the pending hash deleted; or one failure; or nothing, and this
-- only if the context was done.
pub process_job-IsEnded :
    (C : JobCalls) (info_hash peer_addr : Bytes) (s : JobState)
    → 8 ≤ length info_hash
    → (t : JobState) × (process_job C info_hash peer_addr s ≡ ok t)
      × IsEnded C info_hash peer_addr s t
unfolding process_job
process_job-IsEnded C info_hash peer_addr s long =
    let (t, e, ended) =
      run_job-Ended C info_hash peer_addr s (le→not_ltb (length info_hash) 8 long) in
    (completed C info_hash t, rw (process_job, e) refl, ended)
