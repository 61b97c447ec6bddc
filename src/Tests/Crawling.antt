-- ===== src/Tests/Crawling.antt =====
-- The cache and the queue at concrete inputs.
use bt_dht_crawler.Prelude.{
  arith, ℕ, ◌+◌, ◌≡◌, sym, ap, false, List, [], ◌∷◌, Bytes, codes, bytes_eq, times, length, ltb,
  if◌then◌else◌, ok, Bool-cases, inl, inr, Option, none, some,
}
use bt_dht_crawler.Prelude.{◌==◌, true, false}
use bt_dht_crawler.Dht.Compact.{CompactPeerInfo}
use bt_dht_crawler.Crawler.Queue.{WorkerPool}
use bt_dht_crawler.Tests.Samples.{peer_a}
use bt_dht_crawler.Crawler.Cache.{Database, IsDatabase, new_cache}
use bt_dht_crawler.Crawler.Cache.Conservation.{
  count_in, count_batches, System, added, taken, Run, Run-conserves,
}
use bt_dht_crawler.Crawler.Queue.{
  DownloadItem, Feeder, new_queue, loaded, reserve, append_item, feed_get, feed_look, feed_cancel,
}
use bt_dht_crawler.Crawler.Queue.Steps
use bt_dht_crawler.Crawler.Queue.Runs.{Reach, Reach-IsExclusive}
use bt_dht_crawler.Crawler.Queue.Steps.{IsExclusive, reserved}
use bt_dht_crawler.Crawler.Jobs.{JobCalls, JobState, process_job}
use bt_dht_crawler.Crawler.Jobs.Ending.{IsEnded, process_job-IsEnded}

-- A database that is a log of what was inserted, and takes three rows.
abbrev logged : Bytes → List (Bytes × ℕ) → ℕ
logged k [] = 0
logged k ((h, n) ∷ rows) = logged k rows + (if bytes_eq k h then n else 0)

abbrev insert_row : Bytes → ℕ → List (Bytes × ℕ) → Option (List (Bytes × ℕ))
insert_row h n rows = if ltb (length rows) 3 then some ((h, n) ∷ rows) else none

abbrev log_db : Database
log_db = record {
  Db = List (Bytes × ℕ);
  begin = some;
  exec_insert = insert_row;
  commit = some;
  req_count = logged;
}

some_same : (a b : List (Bytes × ℕ)) → some a ≡ some b → a ≡ b
some_same a b e = cc

insert_row_adds :
    (h k : Bytes) (n : ℕ) (db tx : List (Bytes × ℕ))
    → insert_row h n db ≡ some tx
    → logged k tx ≡ logged k db + (if bytes_eq k h then n else 0)
insert_row_adds h k n db tx e = elim (Bool-cases (ltb (length db) 3)) [
  | inl r ↦
      let same : some ((h, n) ∷ db) ≡ some tx = rw r at e in
      ap (logged k) (sym (some_same ((h, n) ∷ db) tx same))
  | inr r ↦ let clash : none ≡ some tx = rw r at e in cc
]

log_db-IsDatabase : IsDatabase log_db
log_db-IsDatabase = record {
  begin_keeps = λ k db tx e. ap (logged k) (sym (some_same db tx e));
  insert_adds = insert_row_adds;
  commit_keeps = λ k tx db e. ap (logged k) (sym (some_same tx db e));
}

abbrev first_state : System log_db
first_state = record { cache = new_cache 2; batches = []; db = [] }

abbrev second_state : System log_db
second_state = added log_db (codes "b") 7 (taken log_db (added log_db (codes "a") 6 first_state))

second-Run : Run log_db 2 [] (codes "b" ∷ codes "a" ∷ []) second_state
second-Run =
    Run.adds (codes "b") 7 (codes "a" ∷ []) (taken log_db (added log_db (codes "a") 6 first_state))
      (Run.takes (codes "a" ∷ []) (added log_db (codes "a") 6 first_state)
        (Run.adds (codes "a") 6 [] first_state Run.starts))

Run-conserves_example :
    logged (codes "a") second_state.db
      + (count_in (codes "a") second_state.cache.items
          + count_batches (codes "a") second_state.batches)
    ≡ logged (codes "a") [] + times (codes "a") (codes "b" ∷ codes "a" ∷ [])
Run-conserves_example =
    Run-conserves log_db log_db-IsDatabase 2 [] (codes "b" ∷ codes "a" ∷ []) second_state
      (codes "a") second-Run

abbrev item_a : DownloadItem
item_a = record {
  info_hash = codes "aa";
  peer_addr = codes "1.2.3.4:5";
  req_count = 0;
  added_at = 9;
}

abbrev no_jobs : Steps.System
no_jobs = record {
  pool = record {
    queue = new_queue 2;
    feeder = Feeder.idle;
    channel = [];
    capacity = 1;
    working = [];
    dropped = [];
  };
  adding = [];
}

abbrev reserved_a : Steps.System
reserved_a = reserved item_a no_jobs

abbrev appended_a : Steps.System
appended_a = record {
  pool = record reserved_a.pool { queue = (append_item item_a reserved_a.pool.queue).0 };
  adding = [];
}

-- The item is added and got, and then the context is done while its job waits.
abbrev cancelled_a : Steps.System
cancelled_a = record appended_a {
  pool = feed_cancel (feed_look (λ h. ok false) (feed_get appended_a.pool));
}

cancelled_a-Reach : Reach 2 1 cancelled_a
unfolding new_queue reserve loaded
cancelled_a-Reach =
    let added : Reach 2 1 appended_a =
      Reach.appends [] item_a [] reserved_a.pool (Reach.reserves item_a no_jobs Reach.starts) in
    Reach.cancels
      (record appended_a { pool = feed_look (λ h. ok false) (feed_get appended_a.pool) })
      (Reach.looks (λ h. ok false) (record appended_a { pool = feed_get appended_a.pool })
        (Reach.gets appended_a added))

Reach-IsExclusive_example : IsExclusive cancelled_a
Reach-IsExclusive_example = Reach-IsExclusive 2 1 cancelled_a cancelled_a-Reach

-- The first download fails and the second gives a name.
abbrev some_calls : JobCalls
some_calls = record {
  Meta = Bytes;
  find_peers = λ h. codes "1.2.3.4:5" ∷ codes "1.2.3.5:6" ∷ [];
  download = λ i h p. if i == 1 then some (codes "name") else none;
  insert_torrent = λ h m. true;
  cancelled = λ i. false;
  busy = λ i. false;
}

abbrev job_state : JobState
job_state = record { queue = new_queue 2; success_count = 0; fail_count = 0; deleted = [] }

process_job-IsEnded_example :
    (t : JobState) × (process_job some_calls (codes "00ff00ff") [] job_state ≡ ok t)
    × IsEnded some_calls (codes "00ff00ff") [] job_state t
process_job-IsEnded_example =
    process_job-IsEnded some_calls (codes "00ff00ff") [] job_state (omega arith)

-- The requester's job is in flight when two peers are found, and a worker takes a job meanwhile.
abbrev busy_pool : WorkerPool
busy_pool = record {
  queue = record { items = []; max_size = 2; in_flight = codes "aa" ∷ [] };
  feeder = Feeder.idle;
  channel = (codes "aa", codes "1.2.3.4:5") ∷ [];
  capacity = 1;
  working = [];
  dropped = [];
}

abbrev two_found : Bytes → List CompactPeerInfo
two_found h = peer_a ∷ peer_a ∷ []
