-- ===== src/Crawler/Queue.antt =====
-- internal/crawler/cache.go: `DownloadQueue`, and what internal/crawler/worker.go does with it.
pub mod Exclusive
pub mod Steps
pub mod Runs
pub mod Feeding
use bt_dht_crawler.Prelude.{
  ℕ, zero, suc, ◌+◌, ◌-◌, ◌*◌, ◌^◌, ◌≤◌, ◌<◌, ◌≡◌, ◌≢◌, refl, sym, ap, ap₂, ◌∙◌, subst, Bool, true,
  false, not, ◌&&◌, ◌||◌, ◌/◌, ◌%◌, List, [], ◌∷◌, ◌++◌, append_assoc, append-nil, map, Bytes,
  codes, bytes_eq, bytes_eq→eq, eq→bytes_eq, bytes_eq_refl, Option-cases, length, length-append,
  take, drop, take-append, drop-append, All, All-append, Pairwise, Pairwise-middle, ltb, ltb→lt,
  leb, ◌==◌, if◌then◌else◌, Outcome, ok, err, panic, Error, ◌>>=◌, Bool-cases, inl, inr, ◌⊎◌, arith,
  Option, none, some,
}

pub record DownloadItem : Type 0 where
  pub info_hash : Bytes
  pub peer_addr : Bytes
  pub req_count : ℕ
  pub added_at : ℕ

-- `in_flight` is the key set of the `sync.Map`.
pub record DownloadQueue : Type 0 where
  pub items : List DownloadItem
  pub max_size : ℕ
  pub in_flight : List Bytes

unfoldable pub new_queue : ℕ → DownloadQueue
new_queue max_size = record { items = []; max_size = max_size; in_flight = [] }

-- `LoadOrStore` returns whether the key was there.
unfoldable pub loaded : Bytes → List Bytes → Bool
loaded k [] = false
loaded k (h ∷ hs) = bytes_eq k h || loaded k hs

unfoldable pub delete : Bytes → List Bytes → List Bytes
delete k [] = []
delete k (h ∷ hs) = if bytes_eq k h then delete k hs else h ∷ delete k hs

-- Behind the store of the key: the test of the size, and the append.
unfoldable pub append_item : DownloadItem → DownloadQueue → DownloadQueue × Bool
unfolding delete
append_item item q =
    if leb q.max_size (length q.items)
    then (record q { in_flight = delete item.info_hash q.in_flight }, false)
    else (record q { items = q.items ++ (item ∷ []) }, true)

abbrev pub stored : Bytes → DownloadQueue → DownloadQueue
stored info_hash q = record q { in_flight = info_hash ∷ q.in_flight }

-- `LoadOrStore`, the first step of `Add` and of a round of `Refill`, with whether the key was there. `Add` does
-- not hold the lock at this step.
unfoldable pub reserve : Bytes → DownloadQueue → DownloadQueue × Bool
unfolding loaded
reserve info_hash q =
    if loaded info_hash q.in_flight then (q, true) else (stored info_hash q, false)

-- `Add`, with what it returns, when no other step comes between its two: `append_item` is the step behind the
-- lock. The runs of Queue/Runs take the steps one by one.
unfoldable pub add : Bytes → Bytes → ℕ → DownloadQueue → DownloadQueue × Bool
unfolding reserve append_item
add info_hash peer_addr now q =
    let r = reserve info_hash q in
    let next =
      append_item
        (record { info_hash = info_hash; peer_addr = peer_addr; req_count = 0; added_at = now })
        r.0 in
    if r.1 then (r.0, false) else next

-- `Get`, by the items.
unfoldable pub get_from : List DownloadItem → DownloadQueue → DownloadQueue × Option (Bytes × Bytes)
get_from [] q = (q, none)
get_from (i ∷ is) q = (record q { items = is }, some (i.info_hash, i.peer_addr))

unfoldable pub get : DownloadQueue → DownloadQueue × Option (Bytes × Bytes)
unfolding get_from
get q = get_from q.items q

-- `Complete`.
unfoldable pub complete : Bytes → DownloadQueue → DownloadQueue
unfolding delete
complete info_hash q = record q { in_flight = delete info_hash q.in_flight }

-- The loop of `Refill` over the pending hashes with their counts, when no `LoadOrStore` of an `Add` comes between:
-- it goes on behind one in flight, and stops when the queue is full.
unfoldable pub refill_loop : List (Bytes × ℕ) → ℕ → DownloadQueue → DownloadQueue
unfolding loaded append_item
refill_loop [] now q = q
refill_loop ((h, n) ∷ hs) now q =
    let item : DownloadItem = record {
      info_hash = h;
      peer_addr = [];
      req_count = n;
      added_at = now;
    } in
    let next = append_item item (stored h q) in
    let skipped = refill_loop hs now q in
    let rest = refill_loop hs now next.0 in
    if loaded h q.in_flight then skipped else if next.1 then rest else next.0

-- `Refill`, given what `GetPendingHashes` returned.
unfoldable pub refill : Outcome (List (Bytes × ℕ)) → ℕ → DownloadQueue → Outcome DownloadQueue
unfolding refill_loop
refill hashes now q = hashes >>= λ hs. ok (refill_loop hs now q)

-- `Size` and `InFlightCount`.
abbrev pub queue_size : DownloadQueue → ℕ
queue_size q = length q.items

abbrev pub in_flight_count : DownloadQueue → ℕ
in_flight_count q = length q.in_flight

-- Where the loop of `feedQueue` stands: before `Get`, with an item, or before its `select` with a job to send;
-- or it returned.
pub data Feeder : Type 0 where
  idle : Feeder
  got : Bytes → Bytes → Feeder
  ready : Bytes → Bytes → Feeder
  returned : Feeder

-- The queue, the feeder, the channel `jobs` with its capacity, the jobs that workers have not completed, and
-- those that were dropped when the context was done.
pub record WorkerPool : Type 0 where
  pub queue : DownloadQueue
  pub feeder : Feeder
  pub channel : List (Bytes × Bytes)
  pub capacity : ℕ
  pub working : List (Bytes × Bytes)
  pub dropped : List (Bytes × Bytes)

-- `Submit`.
abbrev pub submit : Bytes → Bytes → ℕ → WorkerPool → WorkerPool
submit info_hash peer_addr now p = record p { queue = (add info_hash peer_addr now p.queue).0 }

unfoldable pub feed_got : DownloadQueue × Option (Bytes × Bytes) → WorkerPool → WorkerPool
feed_got (q, none) p = p
feed_got (q, some (h, addr)) p = record p { queue = q; feeder = Feeder.got h addr }

-- `Get` in `feedQueue`.
unfoldable pub feed_get : WorkerPool → WorkerPool
unfolding get feed_got
feed_get p = elim p.feeder [
  | Feeder.idle ↦ feed_got (get p.queue) p
  | Feeder.got h addr ↦ p
  | Feeder.ready h addr ↦ p
  | Feeder.returned ↦ p
]

-- What `feedQueue` does with an item it got: without a peer, with a failed look-up, or for a torrent that is
-- there it completes it, else it comes to the `select`.
unfoldable pub feed_job : (Bytes → Outcome Bool) → Bytes → Bytes → WorkerPool → WorkerPool
unfolding complete
feed_job torrent_exists h [] p = record p { queue = complete h p.queue; feeder = Feeder.idle }
feed_job torrent_exists h (b ∷ addr) p = elim (torrent_exists h) [
  | ok false ↦ record p { feeder = Feeder.ready h (b ∷ addr) }
  | _ ↦ record p { queue = complete h p.queue; feeder = Feeder.idle }
]

unfoldable pub feed_look : (Bytes → Outcome Bool) → WorkerPool → WorkerPool
unfolding feed_job
feed_look torrent_exists p = elim p.feeder [
  | Feeder.idle ↦ p
  | Feeder.got h addr ↦ feed_job torrent_exists h addr p
  | Feeder.ready h addr ↦ p
  | Feeder.returned ↦ p
]

-- `case p.jobs <- job`: it blocks while the channel is full. (Behind the `close` of the channel in `Start` it would
-- panic, and the program end.)
unfoldable pub feed_send : WorkerPool → WorkerPool
feed_send p = elim p.feeder [
  | Feeder.idle ↦ p
  | Feeder.got h addr ↦ p
  | Feeder.ready h addr ↦
      if ltb (length p.channel) p.capacity
      then record p { channel = p.channel ++ ((h, addr) ∷ []); feeder = Feeder.idle }
      else p
  | Feeder.returned ↦ p
]

-- `case <-ctx.Done()`, at the head of the loop or in place of the send: the job is dropped, and its hash stays
-- in flight.
unfoldable pub feed_cancel : WorkerPool → WorkerPool
feed_cancel p = elim p.feeder [
  | Feeder.idle ↦ record p { feeder = Feeder.returned }
  | Feeder.got h addr ↦ p
  | Feeder.ready h addr ↦ record p { feeder = Feeder.returned; dropped = (h, addr) ∷ p.dropped }
  | Feeder.returned ↦ p
]

-- A round of `feedQueue` when no other step comes between its own.
unfoldable pub feed_queue : (Bytes → Outcome Bool) → WorkerPool → WorkerPool
unfolding feed_get feed_look feed_send
feed_queue torrent_exists p = feed_send (feed_look torrent_exists (feed_get p))

-- `for job := range p.jobs` in a worker: the job goes to a goroutine of its own, or is dropped if the context is
-- done.
unfoldable pub take_job : WorkerPool → WorkerPool
take_job p = elim p.channel [ [] ↦ p | j ∷ js ↦ record p { channel = js; working = j ∷ p.working } ]

unfoldable pub drop_job : WorkerPool → WorkerPool
drop_job p = elim p.channel [ [] ↦ p | j ∷ js ↦ record p { channel = js; dropped = j ∷ p.dropped } ]

-- The end of `processJob` for one of the jobs.
abbrev pub finish_job : Bytes → List (Bytes × Bytes) → WorkerPool → WorkerPool
finish_job info_hash others p = record p { queue = complete info_hash p.queue; working = others }
