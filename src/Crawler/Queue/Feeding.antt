-- ===== src/Crawler/Queue/Feeding.antt =====
-- The rounds of the feeder and the workers, up to a given item of the queue.
use bt_dht_crawler.Prelude.{
  ℕ, zero, suc, ◌+◌, ◌≤◌, ◌<◌, ◌≡◌, ◌≢◌, refl, ◌∙◌, Bool, true, false, List, [], ◌∷◌, ◌++◌, Bytes,
  length, length-append, lt→ltb, arith, Outcome, ok, err, panic,
}
use bt_dht_crawler.Crawler.Queue.{
  DownloadItem, WorkerPool, Feeder, get, feed_got, feed_get, feed_look, feed_send, feed_job,
  feed_queue, take_job, complete,
}

-- `n` rounds: in each a worker receives the first job of the channel, if there is one, and then `feedQueue` goes
-- round once.
unfoldable pub feed_rounds : (Bytes → Outcome Bool) → ℕ → WorkerPool → WorkerPool
unfolding feed_queue take_job
feed_rounds exists zero p = p
feed_rounds exists (suc n) p = feed_rounds exists n (feed_queue exists (take_job p))

-- The feeder is at the head of its loop, and the channel holds what it can.
pub record IsReady (p : WorkerPool) : Type 0 where
  pub at_head : p.feeder ≡ Feeder.idle
  pub has_capacity : 0 < p.capacity
  pub within : length p.channel ≤ p.capacity

record Fed (is : List DownloadItem) (p : WorkerPool) : Type 0 where
  items : p.queue.items ≡ is
  ready : IsReady p

appended :
    (c : List (Bytes × Bytes)) (j : Bytes × Bytes) (n : ℕ)
    → length c < n
    → length (c ++ (j ∷ [])) ≤ n
appended c j n l =
    let size : length (c ++ (j ∷ [])) ≡ length c + 1 = length-append c (j ∷ []) in omega arith

-- What becomes of an item that the feeder got.
looked-Fed :
    (exists : Bytes → Outcome Bool) (h addr : Bytes) (p : WorkerPool)
    → 0 < p.capacity
    → length p.channel < p.capacity
    → p.feeder ≡ Feeder.got h addr
    → Fed p.queue.items (feed_send (feed_look exists p))
unfolding feed_look feed_send feed_job complete
looked-Fed exists h [] p some_room room e =
    rw (feed_look, e)
      (record {
        items = refl;
        ready = record { at_head = refl; has_capacity = some_room; within = omega arith };
      })
looked-Fed exists h (b ∷ addr) p some_room room e = by_look_up (exists h) refl
  where
    by_look_up :
        (r : Outcome Bool) → exists h ≡ r → Fed p.queue.items (feed_send (feed_look exists p))
    by_look_up (ok true) d =
        rw (feed_look, e, feed_job, d)
          (record {
            items = refl;
            ready = record { at_head = refl; has_capacity = some_room; within = omega arith };
          })
    by_look_up (ok false) d =
        rw (feed_look, e, feed_job, d, lt→ltb (length p.channel) p.capacity room)
          (record {
            items = refl;
            ready = record {
              at_head = refl;
              has_capacity = some_room;
              within = appended p.channel (h, b ∷ addr) p.capacity room;
            };
          })
    by_look_up (err x) d =
        rw (feed_look, e, feed_job, d)
          (record {
            items = refl;
            ready = record { at_head = refl; has_capacity = some_room; within = omega arith };
          })
    by_look_up panic d =
        rw (feed_look, e, feed_job, d)
          (record {
            items = refl;
            ready = record { at_head = refl; has_capacity = some_room; within = omega arith };
          })

looked-sent :
    (exists : Bytes → Outcome Bool) (h addr : Bytes) (p : WorkerPool)
    → length p.channel < p.capacity
    → p.feeder ≡ Feeder.got h addr
    → exists h ≡ ok false
    → addr ≢ []
    → (feed_send (feed_look exists p)).channel ≡ p.channel ++ ((h, addr) ∷ [])
unfolding feed_look feed_send feed_job
looked-sent exists h [] p room e absent ne = absurd (ne refl)
looked-sent exists h (b ∷ addr) p room e absent ne =
    rw (feed_look, e, feed_job, absent, lt→ltb (length p.channel) p.capacity room) refl

-- `Get` takes the first item off the queue.
feed_get-got :
    (i : DownloadItem) (is : List DownloadItem) (p : WorkerPool)
    → p.feeder ≡ Feeder.idle
    → p.queue.items ≡ i ∷ is
    → feed_get p ≡ record p {
      queue = record p.queue { items = is };
      feeder = Feeder.got i.info_hash i.peer_addr;
    }
unfolding feed_get get feed_got
feed_get-got i is p e d = rw (feed_get, e, d) refl

-- Behind the worker's step there is room in the channel.
record HasRoom (p : WorkerPool) : Type 0 where
  at_head : p.feeder ≡ Feeder.idle
  has_capacity : 0 < p.capacity
  room : length p.channel < p.capacity

take_job-HasRoom : (p : WorkerPool) → IsReady p → HasRoom (take_job p)
unfolding take_job
take_job-HasRoom p r = by_channel p.channel refl
  where
    by_channel : (c : List (Bytes × Bytes)) → p.channel ≡ c → HasRoom (take_job p)
    by_channel [] e =
        rw (take_job, e)
          (record {
            at_head = r.at_head;
            has_capacity = r.has_capacity;
            room =
                let none_there : length p.channel ≡ 0 = rw e refl in
                omega (arith, none_there, r.has_capacity);
          })
    by_channel (j ∷ js) e =
        let size : length p.channel ≡ suc (length js) = rw e refl in
        rw (take_job, e)
          (record {
            at_head = r.at_head;
            has_capacity = r.has_capacity;
            room = omega (arith, size, r.within);
          })

take_job-items : (p : WorkerPool) → (take_job p).queue.items ≡ p.queue.items
unfolding take_job
take_job-items p = by_channel p.channel refl
  where
    by_channel :
        (c : List (Bytes × Bytes)) → p.channel ≡ c → (take_job p).queue.items ≡ p.queue.items
    by_channel [] e = rw (take_job, e) refl
    by_channel (j ∷ js) e = rw (take_job, e) refl

-- A round takes the first item off the queue, and ends at the head of the loop.
round-Fed :
    (exists : Bytes → Outcome Bool) (i : DownloadItem) (is : List DownloadItem) (p : WorkerPool)
    → IsReady p
    → p.queue.items ≡ i ∷ is
    → Fed is (feed_queue exists (take_job p))
unfolding feed_queue
round-Fed exists i is p r e =
    let roomy = take_job-HasRoom p r in
    rw (feed_get-got i is (take_job p) roomy.at_head (take_job-items p ∙ e)) (
      looked-Fed exists i.info_hash i.peer_addr
        (record (take_job p) {
          queue = record (take_job p).queue { items = is };
          feeder = Feeder.got i.info_hash i.peer_addr;
        })
        roomy.has_capacity roomy.room refl)

-- A job for a torrent that is not there is sent to the workers.
round-sent :
    (exists : Bytes → Outcome Bool) (i : DownloadItem) (is : List DownloadItem) (p : WorkerPool)
    → IsReady p
    → p.queue.items ≡ i ∷ is
    → exists i.info_hash ≡ ok false
    → i.peer_addr ≢ []
    → (feed_queue exists (take_job p)).channel
      ≡ (take_job p).channel ++ ((i.info_hash, i.peer_addr) ∷ [])
unfolding feed_queue
round-sent exists i is p r e absent addressed =
    let roomy = take_job-HasRoom p r in
    rw (feed_get-got i is (take_job p) roomy.at_head (take_job-items p ∙ e)) (
      looked-sent exists i.info_hash i.peer_addr
        (record (take_job p) {
          queue = record (take_job p).queue { items = is };
          feeder = Feeder.got i.info_hash i.peer_addr;
        })
        roomy.room refl absent addressed)

-- The rounds come to every item.
pub feed_rounds-channel :
    (exists : Bytes → Outcome Bool) (front : List DownloadItem) (i : DownloadItem) (p : WorkerPool)
    → IsReady p
    → p.queue.items ≡ front ++ (i ∷ [])
    → exists i.info_hash ≡ ok false
    → i.peer_addr ≢ []
    → (before : List (Bytes × Bytes)) × ((feed_rounds exists (suc (length front)) p).channel
        ≡ before ++ ((i.info_hash, i.peer_addr) ∷ []))
unfolding feed_rounds
feed_rounds-channel exists [] i p r e absent addressed =
    ((take_job p).channel, round-sent exists i [] p r e absent addressed)
feed_rounds-channel exists (j ∷ front) i p r e absent addressed =
    let fed = round-Fed exists j (front ++ (i ∷ [])) p r e in
    feed_rounds-channel exists front i (feed_queue exists (take_job p)) fed.ready fed.items absent
      addressed
