-- ===== src/Tests/Saving.antt =====
-- Searches and saved torrents at concrete inputs.
use bt_dht_crawler.Prelude.{
  ℕ, ◌≡◌, refl, ◌∙◌, true, false, List, [], ◌∷◌, ◌++◌, Bytes, codes, ok, Ends, arith, none,
}
use bt_dht_crawler.Prelude.Int.{pos}
use bt_dht_crawler.Dht.Id.{hex, IsNodeId}
use bt_dht_crawler.Dht.Node.{Event, EventType}
use bt_dht_crawler.Dht.Active.{Active}
use bt_dht_crawler.Dht.Active.{refresh, query_tick}
use bt_dht_crawler.Dht.Life.{IsLive}
use bt_dht_crawler.Dht.Life.Run.{Life, Life-IsLive}
use bt_dht_crawler.Dht.Search.{Wait, find_peers}
use bt_dht_crawler.Dht.Search.Bound.{Searched, find_peers-Searched}
use bt_dht_crawler.Bt.Value.{lookup, assign}
use bt_dht_crawler.Bt.Decode.{decode_top_dict, decode_reader, decode_dict, decode}
use bt_dht_crawler.Bt.Metadata.Info.{TorrentMeta, parse_metadata, meta_of}
use bt_dht_crawler.Crawler.Cache.{Database, new_cache}
use bt_dht_crawler.Crawler.Queue.{Feeder, new_queue, complete, loaded}
use bt_dht_crawler.Crawler.Events.{Crawler, process_event, peer_addr}
use bt_dht_crawler.Crawler.Jobs.{JobState, process_job}
use bt_dht_crawler.Crawler.Queue.Feeding.{feed_rounds}
use bt_dht_crawler.Crawler.Saved.{with_download, announced-saved}
use bt_dht_crawler.Dht.Node.{add_one}
use bt_dht_crawler.Tests.Samples.{running, running-IsGoodNode, id_b, addr_a, ip_a}
use bt_dht_crawler.Tests.Peers.{hash, hashing, dial_to, incoming, info, download_info}

abbrev idle : Active
idle = record { node = running; txn_counter = 65535; queries_sent = 0; drawn = 0 }

-- A ping arrives while the first round waits.
abbrev with_ping : Wait
with_ping = record {
  arrivals = record { at = 200; payload = codes "d1:q4:ping1:t2:aa1:y1:qe"; from = addr_a } ∷ [];
  until = 203;
}

abbrev quiet : Wait
quiet = record { arrivals = []; until = 206 }

find_peers-Searched_example :
    Ends (λ r. Searched 25 idle r.0 r.1) (find_peers with_ping quiet quiet id_b idle)
find_peers-Searched_example = find_peers-Searched with_ping quiet quiet id_b idle running-IsGoodNode

hash-IsNodeId : IsNodeId hash
hash-IsNodeId = record { size = refl; in_range = omega arith }

-- A database that refuses everything.
abbrev shut_db : Database
shut_db = record {
  Db = Bytes;
  begin = λ db. none;
  exec_insert = λ h n db. none;
  commit = λ db. none;
  req_count = λ h db. 0;
}

abbrev announced : Event
announced = record {
  type_ = EventType.announce;
  info_hash = hash;
  peer_ip = ip_a;
  peer_port = pos 6881;
}

abbrev crawler : Crawler shut_db
crawler = record {
  hash_cache = new_cache 100;
  db = [];
  worker_pool = record {
    queue = new_queue 2;
    feeder = Feeder.idle;
    channel = [];
    capacity = 100;
    working = [];
    dropped = [];
  };
  get_peers_processed = 0;
  announces_processed = 0;
}

abbrev text_of_ip : Bytes → Bytes
text_of_ip ip = codes "192.0.2.17"

abbrev meta : TorrentMeta
meta = record {
  info_hash = hash;
  name = codes "a";
  size = pos 0;
  files = [];
  piece_len = pos 0;
  raw_info = info;
}

parse_info : parse_metadata hash info ≡ ok meta
unfolding parse_metadata meta_of decode_top_dict decode decode_reader decode_dict lookup assign
parse_info = refl

abbrev jobs_done : JobState
jobs_done = record { queue = new_queue 2; success_count = 0; fail_count = 0; deleted = [] }

announced-saved_example :
    ((before : List (Bytes × Bytes)) × ((feed_rounds
          (λ h. ok false)
          1
          (process_event shut_db text_of_ip announced 9 crawler).worker_pool).channel
        ≡ before ++ ((hex hash, peer_addr (text_of_ip ip_a) (pos 6881)) ∷ [])))
    × (process_job
          (with_download hashing
            (λ i. dial_to incoming)
            (λ h. [])
            (λ h m. true)
            (λ i. false)
            (λ i. false))
          (hex hash)
          (peer_addr (text_of_ip ip_a) (pos 6881))
          jobs_done
        ≡ ok (record jobs_done {
          queue = complete (hex hash) jobs_done.queue;
          success_count = add_one jobs_done.success_count;
          deleted = hex hash ∷ jobs_done.deleted;
        }))
unfolding new_queue
announced-saved_example =
    announced-saved shut_db text_of_ip announced 9 crawler (λ h. ok false) hashing
      (λ i. dial_to incoming) (λ h. []) (λ h m. true) (λ i. false) (λ i. false) meta jobs_done refl
      (record { at_head = refl; has_capacity = omega arith; within = omega arith }) hash-IsNodeId
      (unfold loaded in refl) (omega arith) refl refl
      (download_info (peer_addr (text_of_ip ip_a) (pos 6881)) ∙ parse_info) refl

abbrev random_b : ℕ → Bytes
random_b i = id_b

-- The counter of transactions wraps around in these queries.
queried : Life random_b (λ b. none) [] idle (refresh random_b (query_tick random_b idle))
queried = Life.refreshes (query_tick random_b idle) (Life.queries idle Life.starts)

Life-IsLive_example : IsLive (refresh random_b (query_tick random_b idle))
Life-IsLive_example =
    Life-IsLive random_b (λ b. none) [] idle (refresh random_b (query_tick random_b idle))
      (record { good = running-IsGoodNode; counter_fits = omega arith }) queried
