-- ===== src/Crawler/Queue/Runs.antt =====
-- The download queue and the workers in any order of their steps.
use bt_dht_crawler.Prelude.{
  ℕ, ◌+◌, ◌≡◌, refl, subst, Bool, List, [], ◌∷◌, ◌++◌, Bytes, Outcome, ok, arith,
}
use bt_dht_crawler.Crawler.Queue.{
  DownloadItem, DownloadQueue, WorkerPool, Feeder, new_queue, append_item, refill_loop, refill,
  feed_get, feed_look, feed_send, feed_cancel, take_job, drop_job, finish_job,
}
use bt_dht_crawler.Crawler.Queue.Exclusive.{queued, IsQueue, refill_loop-IsQueue}
use bt_dht_crawler.Crawler.Queue.Steps.{
  System, IsExclusive, handed, reserved, reserved-IsExclusive, appended-IsExclusive, feed_get-Keeps,
  feed_look-Keeps, feed_send-Keeps, feed_cancel-Keeps, take_job-Keeps, drop_job-Keeps,
  finish_job-Keeps,
}

-- The reachable states. Each step of each goroutine is one of its own: the two steps of an `Add` or of a round of
-- `Refill`, a whole `Refill`, the steps of `feedQueue` with whatever the look-up says, its return when the
-- context is done, a worker that receives a job, or drops it, and the `Complete` of any job.
pub data Reach (max_size capacity : ℕ) : System → Type 0 where
  starts : Reach max_size capacity (record {
    pool = record {
      queue = new_queue max_size;
      feeder = Feeder.idle;
      channel = [];
      capacity = capacity;
      working = [];
      dropped = [];
    };
    adding = [];
  })
  reserves :
      (item : DownloadItem) (s : System)
      → Reach max_size capacity s
      → Reach max_size capacity (reserved item s)
  appends :
      (before : List DownloadItem) (item : DownloadItem) (after : List DownloadItem)
      (p : WorkerPool)
      → Reach max_size capacity (record { pool = p; adding = before ++ (item ∷ after) })
      → Reach max_size capacity (record {
        pool = record p { queue = (append_item item p.queue).0 };
        adding = before ++ after;
      })
  refills :
      (hashes : List (Bytes × ℕ)) (now : ℕ) (s : System) (q : DownloadQueue)
      → refill (ok hashes) now s.pool.queue ≡ ok q
      → Reach max_size capacity s
      → Reach max_size capacity (record s { pool = record s.pool { queue = q } })
  gets :
      (s : System)
      → Reach max_size capacity s
      → Reach max_size capacity (record s { pool = feed_get s.pool })
  looks :
      (exists : Bytes → Outcome Bool) (s : System)
      → Reach max_size capacity s
      → Reach max_size capacity (record s { pool = feed_look exists s.pool })
  sends :
      (s : System)
      → Reach max_size capacity s
      → Reach max_size capacity (record s { pool = feed_send s.pool })
  cancels :
      (s : System)
      → Reach max_size capacity s
      → Reach max_size capacity (record s { pool = feed_cancel s.pool })
  takes :
      (s : System)
      → Reach max_size capacity s
      → Reach max_size capacity (record s { pool = take_job s.pool })
  drops :
      (s : System)
      → Reach max_size capacity s
      → Reach max_size capacity (record s { pool = drop_job s.pool })
  finishes :
      (before : List (Bytes × Bytes)) (h addr : Bytes) (after : List (Bytes × Bytes)) (s : System)
      → s.pool.working ≡ before ++ ((h, addr) ∷ after)
      → Reach max_size capacity s
      → Reach max_size capacity (record s { pool = finish_job h (before ++ after) s.pool })

-- However calls of `Add`, the feeder, the workers, refills and the end of the context interleave, step by step: a
-- torrent is in flight exactly if a call is adding it, it is queued, the feeder has it, it waits in the channel, a
-- worker has it, or it was dropped when the context was done; it is in one of these places only, and there once;
-- and the queue stays within its size.
pub Reach-IsExclusive :
    (max_size capacity : ℕ) (s : System) → Reach max_size capacity s → IsExclusive s
unfolding new_queue refill
Reach-IsExclusive m n s Reach.starts = record {
  agree = λ k. (refl, omega arith);
  fits = omega arith;
}
Reach-IsExclusive m n _ (Reach.reserves item s r) =
    reserved-IsExclusive item s (Reach-IsExclusive m n s r)
Reach-IsExclusive m n _ (Reach.appends before item after p r) =
    appended-IsExclusive before item after p (Reach-IsExclusive m n _ r)
Reach-IsExclusive m n _ (Reach.refills hashes now s q e r) =
    let same : refill_loop hashes now s.pool.queue ≡ q = cc in
    let w : Bytes → ℕ = λ k. queued k s.adding + handed k s.pool in
    subst (λ x. IsQueue w x) same
      (refill_loop-IsQueue w hashes now s.pool.queue (Reach-IsExclusive m n s r))
Reach-IsExclusive m n _ (Reach.gets s r) =
    let p : WorkerPool = s.pool in
    feed_get-Keeps s.adding p.queue.items p.queue.max_size p.queue.in_flight p.feeder p.channel
      p.capacity p.working p.dropped (Reach-IsExclusive m n s r)
Reach-IsExclusive m n _ (Reach.looks exists s r) =
    let p : WorkerPool = s.pool in
    feed_look-Keeps s.adding exists p.queue p.feeder p.channel p.capacity p.working p.dropped
      (Reach-IsExclusive m n s r)
Reach-IsExclusive m n _ (Reach.sends s r) =
    let p : WorkerPool = s.pool in
    feed_send-Keeps s.adding p.queue p.feeder p.channel p.capacity p.working p.dropped
      (Reach-IsExclusive m n s r)
Reach-IsExclusive m n _ (Reach.cancels s r) =
    let p : WorkerPool = s.pool in
    feed_cancel-Keeps s.adding p.queue p.feeder p.channel p.capacity p.working p.dropped
      (Reach-IsExclusive m n s r)
Reach-IsExclusive m n _ (Reach.takes s r) =
    let p : WorkerPool = s.pool in
    take_job-Keeps s.adding p.queue p.feeder p.channel p.capacity p.working p.dropped
      (Reach-IsExclusive m n s r)
Reach-IsExclusive m n _ (Reach.drops s r) =
    let p : WorkerPool = s.pool in
    drop_job-Keeps s.adding p.queue p.feeder p.channel p.capacity p.working p.dropped
      (Reach-IsExclusive m n s r)
Reach-IsExclusive m n _ (Reach.finishes before h addr after s e r) =
    finish_job-Keeps s.adding before h addr after s.pool e (Reach-IsExclusive m n s r)
