-- ===== src/Crawler/Queue/Steps.antt =====
-- Each step of the download queue, the feeder and the workers keeps every torrent in one place.
use bt_dht_crawler.Prelude.{
  ℕ, ◌+◌, ◌≡◌, refl, ap, Bool, true, false, List, [], ◌∷◌, ◌++◌, Bytes, length, ltb, if◌then◌else◌,
  Outcome, ok, err, panic, Bool-cases, inl, inr, arith,
}
use bt_dht_crawler.Crawler.Queue.{
  DownloadItem, DownloadQueue, WorkerPool, Feeder, get, get_from, complete, append_item, loaded,
  reserve, stored, feed_got, feed_get, feed_job, feed_look, feed_send, feed_cancel, take_job,
  drop_job, finish_job,
}
use bt_dht_crawler.Crawler.Queue.Exclusive.{
  one, queued, working, queued-append, working-append, Agree-along, Agree-delete, IsQueue,
  stored-IsQueue, append_item-IsQueue,
}

-- The pool with the items of the calls of `Add` and of the rounds of `Refill` that have stored their key and not
-- yet come to the test of the size.
pub record System : Type 0 where
  pub pool : WorkerPool
  pub adding : List DownloadItem

abbrev pub in_feeder : Bytes → Feeder → ℕ
in_feeder k Feeder.idle = 0
in_feeder k (Feeder.got h addr) = one k h
in_feeder k (Feeder.ready h addr) = one k h
in_feeder k Feeder.returned = 0

-- How often a torrent is in the hands of the feeder, of the channel and of the workers, or was dropped.
abbrev pub handed : Bytes → WorkerPool → ℕ
handed k p =
    in_feeder k p.feeder + (working k p.channel + (working k p.working + working k p.dropped))

-- The queue is within its size, and each torrent is in flight exactly if it is in one of these places, and then it
-- is there once: a call that is adding it, the queue, the feeder, the channel, a worker, or among those dropped.
abbrev pub IsExclusive : System → Type 0
IsExclusive s = IsQueue (λ k. queued k s.adding + handed k s.pool) s.pool.queue

-- The first step of an `Add`, and of a round of `Refill`.
abbrev pub reserved : DownloadItem → System → System
reserved item s = record {
  pool = record s.pool { queue = (reserve item.info_hash s.pool.queue).0 };
  adding = if (reserve item.info_hash s.pool.queue).1 then s.adding else item ∷ s.adding;
}

-- The same count under another name.
pub IsQueue-along :
    (w v : Bytes → ℕ) (q : DownloadQueue) → ((k : Bytes) → w k ≡ v k) → IsQueue w q → IsQueue v q
IsQueue-along w v q same x = record {
  agree = Agree-along q.in_flight _ _ (λ k. omega (arith, same k)) x.agree;
  fits = x.fits;
}

complete-IsQueue :
    (w : Bytes → ℕ) (h : Bytes) (q : DownloadQueue)
    → IsQueue (λ k. one k h + w k) q
    → IsQueue w (complete h q)
unfolding complete
complete-IsQueue w h q v = record {
  agree =
      Agree-delete h q.in_flight (λ k. queued k q.items + w k)
        (Agree-along q.in_flight _ _ (λ k. omega arith) v.agree);
  fits = v.fits;
}

-- The queue without its first item, which is whoever's took it.
get-IsQueue :
    (w : Bytes → ℕ) (q : DownloadQueue) (i : DownloadItem) (is : List DownloadItem)
    → q.items ≡ i ∷ is
    → IsQueue w q
    → IsQueue (λ k. one k i.info_hash + w k) (record q { items = is })
get-IsQueue w q i is e v = record {
  agree = Agree-along q.in_flight _ _ (λ k. omega (arith, ap (queued k) e)) v.agree;
  fits = let f = v.fits in omega (arith, ap length e);
}

pub reserved-IsExclusive :
    (item : DownloadItem) (s : System) → IsExclusive s → IsExclusive (reserved item s)
unfolding reserve
reserved-IsExclusive item s v = elim (Bool-cases (loaded item.info_hash s.pool.queue.in_flight)) [
  | inl e ↦ rw e v
  | inr e ↦ rw e (
      IsQueue-along _ _ (stored item.info_hash s.pool.queue) (λ k. omega arith)
        (stored-IsQueue (λ k. queued k s.adding + handed k s.pool) item.info_hash s.pool.queue e v))
]

pub appended-IsExclusive :
    (before : List DownloadItem) (item : DownloadItem) (after : List DownloadItem) (p : WorkerPool)
    → IsExclusive (record { pool = p; adding = before ++ (item ∷ after) })
    → IsExclusive (record {
      pool = record p { queue = (append_item item p.queue).0 };
      adding = before ++ after;
    })
appended-IsExclusive before item after p v =
    append_item-IsQueue (λ k. queued k (before ++ after) + handed k p) item p.queue
      (IsQueue-along _ _ p.queue
        (λ k. omega (arith, queued-append k before (item ∷ after), queued-append k before after)) v)

-- The parts of a pool.
abbrev pub pool_of :
    DownloadQueue
    → Feeder
    → List (Bytes × Bytes)
    → ℕ
    → List (Bytes × Bytes)
    → List (Bytes × Bytes)
    → WorkerPool
pool_of q f c n w d = record {
  queue = q;
  feeder = f;
  channel = c;
  capacity = n;
  working = w;
  dropped = d;
}

abbrev pub queue_of : List DownloadItem → ℕ → List Bytes → DownloadQueue
queue_of is n l = record { items = is; max_size = n; in_flight = l }

module _ (a : List DownloadItem) where
  -- The pool beside these calls.
  abbrev pub Keeps : WorkerPool → Type 0
  Keeps p = IsExclusive (record { pool = p; adding = a })

  pub feed_get-Keeps :
      (is : List DownloadItem) (m : ℕ) (l : List Bytes) (f : Feeder) (c : List (Bytes × Bytes))
      (n : ℕ) (w d : List (Bytes × Bytes))
      → Keeps (pool_of (queue_of is m l) f c n w d)
      → Keeps (feed_get (pool_of (queue_of is m l) f c n w d))
  unfolding feed_get get get_from feed_got
  feed_get-Keeps [] m l Feeder.idle c n w d v = v
  feed_get-Keeps (i ∷ is) m l Feeder.idle c n w d v =
      IsQueue-along _ _ (queue_of is m l) (λ k. omega arith)
        (get-IsQueue
          (λ k. queued k a + handed k (pool_of (queue_of (i ∷ is) m l) Feeder.idle c n w d))
          (queue_of (i ∷ is) m l) i is refl v)
  feed_get-Keeps is m l (Feeder.got h x) c n w d v = v
  feed_get-Keeps is m l (Feeder.ready h x) c n w d v = v
  feed_get-Keeps is m l Feeder.returned c n w d v = v

  pub feed_job-Keeps :
      (exists : Bytes → Outcome Bool) (h addr : Bytes) (q : DownloadQueue)
      (c : List (Bytes × Bytes)) (n : ℕ) (w d : List (Bytes × Bytes))
      → Keeps (pool_of q (Feeder.got h addr) c n w d)
      → Keeps (feed_job exists h addr (pool_of q (Feeder.got h addr) c n w d))
  unfolding feed_job
  feed_job-Keeps exists h addr q c n w d v = by_peer addr v
    where
      done : Keeps (pool_of (complete h q) Feeder.idle c n w d)
      done =
          complete-IsQueue (λ k. queued k a + handed k (pool_of q Feeder.idle c n w d)) h q
            (IsQueue-along _ _ q (λ k. omega arith) v)

      by_look_up :
          (b : ℕ) (x : Bytes) (r : Outcome Bool)
          → exists h ≡ r
          → Keeps (feed_job exists h (b ∷ x) (pool_of q (Feeder.got h (b ∷ x)) c n w d))
      by_look_up b x (ok false) e = rw (feed_job, e) v
      by_look_up b x (ok true) e = rw (feed_job, e) done
      by_look_up b x (err z) e = rw (feed_job, e) done
      by_look_up b x panic e = rw (feed_job, e) done

      by_peer :
          (x : Bytes)
          → Keeps (pool_of q (Feeder.got h x) c n w d)
          → Keeps (feed_job exists h x (pool_of q (Feeder.got h x) c n w d))
      by_peer [] u = done
      by_peer (b ∷ x) u = by_look_up b x (exists h) refl

  pub feed_look-Keeps :
      (exists : Bytes → Outcome Bool) (q : DownloadQueue) (f : Feeder) (c : List (Bytes × Bytes))
      (n : ℕ) (w d : List (Bytes × Bytes))
      → Keeps (pool_of q f c n w d)
      → Keeps (feed_look exists (pool_of q f c n w d))
  unfolding feed_look
  feed_look-Keeps exists q Feeder.idle c n w d v = v
  feed_look-Keeps exists q (Feeder.got h x) c n w d v = feed_job-Keeps exists h x q c n w d v
  feed_look-Keeps exists q (Feeder.ready h x) c n w d v = v
  feed_look-Keeps exists q Feeder.returned c n w d v = v

  pub feed_send-Keeps :
      (q : DownloadQueue) (f : Feeder) (c : List (Bytes × Bytes)) (n : ℕ)
      (w d : List (Bytes × Bytes))
      → Keeps (pool_of q f c n w d)
      → Keeps (feed_send (pool_of q f c n w d))
  unfolding feed_send
  feed_send-Keeps q Feeder.idle c n w d v = v
  feed_send-Keeps q (Feeder.got h x) c n w d v = v
  feed_send-Keeps q (Feeder.ready h x) c n w d v = elim (Bool-cases (ltb (length c) n)) [
    | inl e ↦ rw e (IsQueue-along _ _ q (λ k. omega (arith, working-append k c ((h, x) ∷ []))) v)
    | inr e ↦ rw e v
  ]
  feed_send-Keeps q Feeder.returned c n w d v = v

  pub feed_cancel-Keeps :
      (q : DownloadQueue) (f : Feeder) (c : List (Bytes × Bytes)) (n : ℕ)
      (w d : List (Bytes × Bytes))
      → Keeps (pool_of q f c n w d)
      → Keeps (feed_cancel (pool_of q f c n w d))
  unfolding feed_cancel
  feed_cancel-Keeps q Feeder.idle c n w d v = v
  feed_cancel-Keeps q (Feeder.got h x) c n w d v = v
  feed_cancel-Keeps q (Feeder.ready h x) c n w d v = IsQueue-along _ _ q (λ k. omega arith) v
  feed_cancel-Keeps q Feeder.returned c n w d v = v

  pub take_job-Keeps :
      (q : DownloadQueue) (f : Feeder) (c : List (Bytes × Bytes)) (n : ℕ)
      (w d : List (Bytes × Bytes))
      → Keeps (pool_of q f c n w d)
      → Keeps (take_job (pool_of q f c n w d))
  unfolding take_job
  take_job-Keeps q f [] n w d v = v
  take_job-Keeps q f ((h, x) ∷ c) n w d v = IsQueue-along _ _ q (λ k. omega arith) v

  pub drop_job-Keeps :
      (q : DownloadQueue) (f : Feeder) (c : List (Bytes × Bytes)) (n : ℕ)
      (w d : List (Bytes × Bytes))
      → Keeps (pool_of q f c n w d)
      → Keeps (drop_job (pool_of q f c n w d))
  unfolding drop_job
  drop_job-Keeps q f [] n w d v = v
  drop_job-Keeps q f ((h, x) ∷ c) n w d v = IsQueue-along _ _ q (λ k. omega arith) v

  pub finish_job-Keeps :
      (before : List (Bytes × Bytes)) (h addr : Bytes) (after : List (Bytes × Bytes))
      (p : WorkerPool)
      → p.working ≡ before ++ ((h, addr) ∷ after)
      → Keeps p
      → Keeps (finish_job h (before ++ after) p)
  finish_job-Keeps before h addr after p e v =
      complete-IsQueue (λ k. queued k a + handed k (record p { working = before ++ after })) h
        p.queue
        (IsQueue-along _ _ p.queue
          (λ k. omega (
            arith,
            ap (working k) e,
            working-append k before ((h, addr) ∷ after),
            working-append k before after,
          ))
          v)
