-- ===== src/Crawler/Saved.antt =====
-- From an announcement to a saved torrent: the event, the queue, the feeder and the job together.
use bt_dht_crawler.Prelude.{
  lt→not_leb, le→not_ltb, arith, ℕ, suc, ◌*◌, ◌<◌, ◌≡◌, ◌≢◌, refl, sym, ap, ◌∙◌, Bool, true, false,
  List, [], ◌∷◌, ◌++◌, Bytes, length, take, replicate, take-append, Outcome, ok, err, panic, Option,
  none, some,
}
use bt_dht_crawler.Prelude.Int.{ℤ}
use bt_dht_crawler.Bt.Metadata.Wire.{Conn}
use bt_dht_crawler.Bt.Metadata.Info.{TorrentMeta}
use bt_dht_crawler.Bt.Metadata.Session.{download}
use bt_dht_crawler.Dht.Id.{hex, IsNodeId}
use bt_dht_crawler.Dht.Id.Hex.{decode_hex-hex, length-hex}
use bt_dht_crawler.Dht.Node.{Event, announce, add_one}
use bt_dht_crawler.Crawler.Cache.{Database}
use bt_dht_crawler.Crawler.Queue.{DownloadItem, add, reserve, append_item, loaded, complete}
use bt_dht_crawler.Crawler.Events.{Crawler, peer_addr, process_announce, process_event}
use bt_dht_crawler.Crawler.Jobs.{
  JobCalls, JobState, hash_array, is_short, peers_to_try, try_peers, save_result, run_peers,
  run_job, process_job,
}
use bt_dht_crawler.Crawler.Queue.Feeding.{IsReady, feed_rounds, feed_rounds-channel}

-- An announcement of a hash that is not in flight, with room in the queue, is the last item of it.
process_event-items :
    (D : Database) (ip_string : Bytes → Bytes) (e : Event) (now : ℕ) (c : Crawler D)
    → e.type_ ≡ announce
    → loaded (hex e.info_hash) c.worker_pool.queue.in_flight ≡ false
    → length c.worker_pool.queue.items < c.worker_pool.queue.max_size
    → (process_event D ip_string e now c).worker_pool.queue.items
      ≡ c.worker_pool.queue.items
        ++ (record {
          info_hash = hex e.info_hash;
          peer_addr = peer_addr (ip_string e.peer_ip) e.peer_port;
          req_count = 0;
          added_at = now;
        }
            ∷ [])
unfolding process_event process_announce add reserve append_item
process_event-items D ip_string e now c announced fresh room =
    rw
      (
        process_event,
        announced,
        fresh,
        lt→not_leb c.worker_pool.queue.max_size (length c.worker_pool.queue.items) room,
      )
      refl

hash_array-full : (hash : Bytes) → length hash ≡ 20 → hash_array hash ≡ hash
hash_array-full hash size =
    ap (λ n. take n (hash ++ replicate 20 0)) (sym size) ∙ take-append hash (replicate 20 0)

long_hash : (hash : Bytes) → length hash ≡ 20 → is_short (hex hash) ≡ false
long_hash hash size =
    le→not_ltb (length (hex hash)) 8
      (let twice : length (hex hash) ≡ length hash * 2 = length-hex hash in omega arith)

-- The job gets the metadata from its peer, and the database takes it.
run_peers-saves :
    (C : JobCalls) (hash addr : Bytes) (m : C.Meta) (s : JobState)
    → length hash ≡ 20
    → addr ≢ []
    → C.cancelled 0 ≡ false
    → C.download 0 hash addr ≡ some m
    → C.insert_torrent (hex hash) m ≡ true
    → run_peers C (hex hash) hash (peers_to_try C hash addr) s
      ≡ ok (record s { success_count = add_one s.success_count; deleted = hex hash ∷ s.deleted })
unfolding run_peers peers_to_try try_peers save_result
run_peers-saves C hash [] m s size ne going got taken = absurd (ne refl)
run_peers-saves C hash (b ∷ addr) m s size ne going got taken =
    rw (going, got, long_hash hash size, taken) refl

process_job-saves :
    (C : JobCalls) (hash addr : Bytes) (m : C.Meta) (s : JobState)
    → IsNodeId hash
    → addr ≢ []
    → C.cancelled 0 ≡ false
    → C.download 0 hash addr ≡ some m
    → C.insert_torrent (hex hash) m ≡ true
    → process_job C (hex hash) addr s
      ≡ ok (record s {
        queue = complete (hex hash) s.queue;
        success_count = add_one s.success_count;
        deleted = hex hash ∷ s.deleted;
      })
unfolding process_job
process_job-saves C hash addr m s id ne going got taken =
    rw
      (
        run_job,
        decode_hex-hex hash id.in_range,
        hash_array-full hash id.size,
        run_peers-saves C hash addr m s id.size ne going got taken,
      )
      refl

-- The result of `Download` as `processJob` takes it.
abbrev pub option_of : Outcome TorrentMeta → Option TorrentMeta
option_of (ok m) = some m
option_of (err e) = none
option_of panic = none

-- The calls of a job, with `Download` in its place and the rest of the outside as it is.
abbrev pub with_download :
    (Bytes → Bytes)
    → (ℕ → Bytes → Outcome Conn)
    → (Bytes → List Bytes)
    → (Bytes → TorrentMeta → Bool)
    → (ℕ → Bool)
    → (ℕ → Bool)
    → JobCalls
with_download sha1 dial find_peers insert_torrent cancelled busy = record {
  Meta = TorrentMeta;
  find_peers = find_peers;
  download = λ i hash addr. option_of (download sha1 (dial i) hash addr);
  insert_torrent = insert_torrent;
  cancelled = cancelled;
  busy = busy;
}

peer_addr-some : (ip : Bytes) (port : ℤ) → peer_addr ip port ≢ []
unfolding peer_addr
peer_addr-some [] port e = cc
peer_addr-some (b ∷ ip) port e = cc

-- The event leaves the feeder and the channel as they are.
process_event-IsReady :
    (D : Database) (ip_string : Bytes → Bytes) (e : Event) (now : ℕ) (c : Crawler D)
    → e.type_ ≡ announce
    → IsReady c.worker_pool
    → IsReady (process_event D ip_string e now c).worker_pool
unfolding process_event process_announce
process_event-IsReady D ip_string e now c announced r =
    rw (process_event, announced)
      (record { at_head = r.at_head; has_capacity = r.has_capacity; within = r.within })

-- Let an announcement name an info hash of 20 bytes that is not in flight, the queue have room, the feeder be at the
-- head of its loop, the channel of the jobs have a capacity, which it keeps, and the database not have the torrent.
-- Then rounds in which a worker receives a job, if one waits, and the feeder goes round once, one for each item
-- before it and its own, end with the job for the announcing peer sent to the workers; and if `Download` from that
-- peer returns metadata which the database takes, and the context is not done, the job ends without a panic, counts
-- one success, deletes the pending hash and takes the hash out of flight.
pub announced-saved :
    (D : Database) (ip_string : Bytes → Bytes) (e : Event) (now : ℕ) (c : Crawler D)
    (exists : Bytes → Outcome Bool) (sha1 : Bytes → Bytes) (dial : ℕ → Bytes → Outcome Conn)
    (find_peers : Bytes → List Bytes) (insert_torrent : Bytes → TorrentMeta → Bool)
    (cancelled busy : ℕ → Bool) (m : TorrentMeta) (s : JobState)
    → e.type_ ≡ announce
    → IsReady c.worker_pool
    → IsNodeId e.info_hash
    → loaded (hex e.info_hash) c.worker_pool.queue.in_flight ≡ false
    → length c.worker_pool.queue.items < c.worker_pool.queue.max_size
    → exists (hex e.info_hash) ≡ ok false
    → cancelled 0 ≡ false
    → download sha1 (dial 0) e.info_hash (peer_addr (ip_string e.peer_ip) e.peer_port) ≡ ok m
    → insert_torrent (hex e.info_hash) m ≡ true
    → ((before : List (Bytes × Bytes)) × ((feed_rounds exists
            (suc (length c.worker_pool.queue.items))
            (process_event D ip_string e now c).worker_pool).channel
          ≡ before ++ ((hex e.info_hash, peer_addr (ip_string e.peer_ip) e.peer_port) ∷ [])))
      × (process_job
            (with_download sha1 dial find_peers insert_torrent cancelled busy)
            (hex e.info_hash)
            (peer_addr (ip_string e.peer_ip) e.peer_port)
            s
          ≡ ok (record s {
            queue = complete (hex e.info_hash) s.queue;
            success_count = add_one s.success_count;
            deleted = hex e.info_hash ∷ s.deleted;
          }))
announced-saved D ip_string e now c exists sha1 dial find_peers insert_torrent cancelled busy m s
      announced ready id fresh room absent going got taken =
    let addr : Bytes = peer_addr (ip_string e.peer_ip) e.peer_port in
    let item : DownloadItem = record {
      info_hash = hex e.info_hash;
      peer_addr = addr;
      req_count = 0;
      added_at = now;
    } in
    (
      feed_rounds-channel exists c.worker_pool.queue.items item
          (process_event D ip_string e now c).worker_pool
          (process_event-IsReady D ip_string e now c announced ready)
          (process_event-items D ip_string e now c announced fresh room) absent
          (peer_addr-some (ip_string e.peer_ip) e.peer_port),
      process_job-saves (with_download sha1 dial find_peers insert_torrent cancelled busy)
          e.info_hash addr m s id (peer_addr-some (ip_string e.peer_ip) e.peer_port) going
          (ap option_of got) taken,
    )
