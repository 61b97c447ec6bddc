-- ===== src/Crawler/Jobs.antt =====
-- internal/crawler/worker.go: `processJob`. What it calls outside of the pool are parameters: the search
-- for peers, the download, and the two statements of the database.
pub mod Ending
use bt_dht_crawler.Prelude.{
  ℕ, zero, suc, ◌+◌, ◌-◌, ◌*◌, ◌^◌, ◌≤◌, ◌<◌, ◌≡◌, ◌≢◌, refl, sym, ap, ap₂, ◌∙◌, subst, Bool, true,
  false, not, ◌&&◌, ◌||◌, ◌/◌, ◌%◌, List, [], ◌∷◌, ◌++◌, append_assoc, append-nil, map, Bytes,
  codes, bytes_eq, bytes_eq→eq, eq→bytes_eq, bytes_eq_refl, bytes_eq-same, times, Option-cases,
  length, length-append, take, drop, take-append, drop-append, All, All-append, Pairwise,
  Pairwise-middle, ltb, ltb→lt, leb, ◌==◌, if◌then◌else◌, Outcome, ok, err, panic, Error, ◌>>=◌,
  Bool-cases, inl, inr, ◌⊎◌, arith, Option, none, some,
}
use bt_dht_crawler.Dht.Id.{decode_hex}
use bt_dht_crawler.Dht.Node.{add_one}
use bt_dht_crawler.Crawler.Queue.{DownloadQueue, complete}

-- What a job works on: `download` returns the metadata if it succeeded; `insert_torrent` whether the database took
-- it; `cancelled` is whether the context was done before a try, and `busy` whether ten or more downloads were
-- running when a try had failed. The tries are numbered.
pub record JobCalls : Type 1 where
  pub Meta : Type 0
  pub find_peers : Bytes → List Bytes
  pub download : ℕ → Bytes → Bytes → Option Meta
  pub insert_torrent : Bytes → Meta → Bool
  pub cancelled : ℕ → Bool
  pub busy : ℕ → Bool

-- The counters, and the hashes deleted from the pending ones.
pub record JobState : Type 0 where
  pub queue : DownloadQueue
  pub success_count : ℕ
  pub fail_count : ℕ
  pub deleted : List Bytes

pub data Tried (M : Type 0) : Type 0 where
  found : M → Tried M
  not_found stopped crashed : Tried M

-- `copy(infoHash[:], hashBytes)`
abbrev pub hash_array : Bytes → Bytes
hash_array bs =
    take 20
      (bs ++ (0 ∷ 0 ∷ 0 ∷ 0 ∷ 0 ∷ 0 ∷ 0 ∷ 0 ∷ 0 ∷ 0 ∷ 0 ∷ 0 ∷ 0 ∷ 0 ∷ 0 ∷ 0 ∷ 0 ∷ 0 ∷ 0 ∷ 0 ∷ []))

abbrev failed : JobState → JobState
failed s = record s { fail_count = add_one s.fail_count }

-- `job.infoHash[:8]`, which the lines of the log print, is out of range.
abbrev pub is_short : Bytes → Bool
is_short info_hash = ltb (length info_hash) 8

module _ (C : JobCalls) where
  -- The peer of the job, else those that the DHT has.
  unfoldable pub peers_to_try : Bytes → Bytes → List Bytes
  peers_to_try hash [] = C.find_peers hash
  peers_to_try hash (b ∷ addr) = (b ∷ addr) ∷ []

  -- The loop over the peers. A download is logged, and so are the first two that failed if the workers are not
  -- busy.
  unfoldable pub try_peers : Bytes → Bytes → ℕ → List Bytes → Tried C.Meta
  try_peers info_hash hash i [] = Tried.not_found
  try_peers info_hash hash i (p ∷ ps) =
      let rest = try_peers info_hash hash (suc i) ps in
      if C.cancelled i then Tried.stopped else elim (C.download i hash p) [
        | some m ↦ if is_short info_hash then Tried.crashed else Tried.found m
        | none ↦ if ltb i 2 && not (C.busy i) && is_short info_hash then Tried.crashed else rest
      ]

  -- What follows the loop. Every hundredth failure is logged.
  unfoldable pub save_result : Bytes → Tried C.Meta → JobState → Outcome JobState
  save_result info_hash Tried.stopped s = ok s
  save_result info_hash Tried.crashed s = panic
  save_result info_hash Tried.not_found s =
      if (s.fail_count % 100 == 0) && is_short info_hash then panic else ok (failed s)
  save_result info_hash (Tried.found m) s =
      if C.insert_torrent info_hash m
      then ok
          (record s { deleted = info_hash ∷ s.deleted; success_count = add_one s.success_count })
      else ok (failed s)

  -- From the peers on: `len(peers) == 0` is a failure that is not logged.
  unfoldable pub run_peers : Bytes → Bytes → List Bytes → JobState → Outcome JobState
  unfolding save_result try_peers
  run_peers info_hash hash [] s = ok (failed s)
  run_peers info_hash hash (p ∷ ps) s =
      save_result info_hash (try_peers info_hash hash 0 (p ∷ ps)) s

  -- The job without the deferred calls.
  unfoldable pub run_job : Bytes → Bytes → JobState → Outcome JobState
  unfolding run_peers peers_to_try
  run_job info_hash peer_addr s = elim (decode_hex info_hash) [
    | ok bs ↦ run_peers info_hash (hash_array bs) (peers_to_try (hash_array bs) peer_addr) s
    | _ ↦ ok (failed s)
  ]

  -- `defer p.queue.Complete(job.infoHash)`
  abbrev pub completed : Bytes → JobState → JobState
  completed info_hash s = record s { queue = complete info_hash s.queue }

  -- A panic ends the program.
  unfoldable pub process_job : Bytes → Bytes → JobState → Outcome JobState
  unfolding run_job
  process_job info_hash peer_addr s =
      run_job info_hash peer_addr s >>= λ t. ok (completed info_hash t)
