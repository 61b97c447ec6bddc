-- ===== src/Crawler/Events.antt =====
-- internal/crawler/crawler.go: what the crawler does with an event of the DHT.
pub mod Ports
use bt_dht_crawler.Prelude.{
  ℕ, zero, suc, ◌+◌, ◌-◌, ◌*◌, ◌^◌, ◌≤◌, ◌<◌, ◌≡◌, ◌≢◌, refl, sym, ap, ap₂, ◌∙◌, subst, Bool, true,
  false, not, ◌&&◌, ◌||◌, ◌/◌, ◌%◌, List, [], ◌∷◌, ◌++◌, append_assoc, append-nil, map, Bytes,
  codes, bytes_eq, bytes_eq→eq, eq→bytes_eq, bytes_eq_refl, bytes_eq-same, times, Option-cases,
  length, length-append, take, drop, take-append, drop-append, All, All-append, Pairwise,
  Pairwise-middle, ltb, ltb→lt, leb, ◌==◌, if◌then◌else◌, Outcome, ok, err, panic, Error, ◌>>=◌,
  Bool-cases, inl, inr, ◌⊎◌, arith, Option, none, some,
}
use bt_dht_crawler.Prelude.Int.{ℤ, pos, negsuc}
use bt_dht_crawler.Bt.Decimal.{format_int}
use bt_dht_crawler.Dht.Id.{hex}
use bt_dht_crawler.Dht.Node.{Event, EventType, get_peers, announce, add_one}
use bt_dht_crawler.Crawler.Cache
use bt_dht_crawler.Crawler.Cache.{HashCache, Database}
use bt_dht_crawler.Crawler.Queue.{WorkerPool, submit}

-- The fields that `processEvent` changes, with the database that the cache flushes to.
pub record Crawler (D : Database) : Type 0 where
  pub hash_cache : HashCache
  pub db : D.Db
  pub worker_pool : WorkerPool
  pub get_peers_processed : ℕ
  pub announces_processed : ℕ

-- `fmt.Sprintf("%s:%d", ip, port)`, given the text of the address.
unfoldable pub peer_addr : Bytes → ℤ → Bytes
peer_addr ip_text port = ip_text ++ (b':' ∷ format_int port)

-- `port == event.PeerPort`.
unfoldable pub is_port : ℕ → ℤ → Bool
is_port port (pos n) = port == n
is_port port (negsuc n) = false

-- The loop over the common ports, which leaves out the event's own.
unfoldable pub submit_ports : Bytes → Bytes → ℤ → ℕ → List ℕ → WorkerPool → WorkerPool
unfolding peer_addr is_port
submit_ports info_hash ip_text own now [] p = p
submit_ports info_hash ip_text own now (port ∷ ports) p =
    let skipped = submit_ports info_hash ip_text own now ports p in
    let sent =
      submit_ports info_hash ip_text own now ports
        (submit info_hash (peer_addr ip_text (pos port)) now p) in
    if is_port port own then skipped else sent

abbrev pub common_ports : List ℕ
common_ports = 6881 ∷ 6882 ∷ 51413 ∷ 16881 ∷ []

-- The submissions for a `get_peers` event.
unfoldable pub submit_requester : Bytes → Bytes → ℤ → ℕ → WorkerPool → WorkerPool
unfolding submit_ports peer_addr
submit_requester info_hash ip_text port now p =
    submit_ports info_hash ip_text port now common_ports
      (submit info_hash (peer_addr ip_text port) now p)

abbrev hashed : (D : Database) → Bytes → ℕ → Crawler D → Crawler D
hashed D info_hash now c = record c {
  hash_cache = (Cache.add D info_hash now c.hash_cache c.db).0;
  db = (Cache.add D info_hash now c.hash_cache c.db).1;
}

-- `processEvent`, less the search that it starts in a goroutine of its own. `ip_string` is the `String`
-- of Go's `net.IP`.
module _ (D : Database) (ip_string : Bytes → Bytes) where
  unfoldable pub process_get_peers : Event → ℕ → Crawler D → Crawler D
  unfolding submit_requester
  process_get_peers e now c = record (hashed D (hex e.info_hash) now c) {
    get_peers_processed = add_one c.get_peers_processed;
    worker_pool =
        submit_requester (hex e.info_hash) (ip_string e.peer_ip) e.peer_port now c.worker_pool;
  }

  unfoldable pub process_announce : Event → ℕ → Crawler D → Crawler D
  unfolding peer_addr
  process_announce e now c = record (hashed D (hex e.info_hash) now c) {
    announces_processed = add_one c.announces_processed;
    worker_pool =
        submit (hex e.info_hash) (peer_addr (ip_string e.peer_ip) e.peer_port) now c.worker_pool;
  }

  unfoldable pub process_event : Event → ℕ → Crawler D → Crawler D
  unfolding process_get_peers process_announce
  process_event e now c = elim e.type_ [
    | EventType.get_peers ↦ process_get_peers e now c
    | EventType.announce ↦ process_announce e now c
  ]
