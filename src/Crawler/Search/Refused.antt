-- ===== src/Crawler/Search/Refused.antt =====
-- A search whose peers are refused, as the torrent is in flight or the queue is full.
use bt_dht_crawler.Prelude.{ℕ, zero, suc}
use bt_dht_crawler.Crawler.Queue.{WorkerPool}

-- The pool when the others alone changed it, `n` times from the `i`-th on.
abbrev pub run_from : (ℕ → WorkerPool → WorkerPool) → ℕ → ℕ → WorkerPool → WorkerPool
run_from between i zero p = p
run_from between i (suc n) p = run_from between (suc i) n (between i p)
