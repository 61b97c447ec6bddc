-- ===== src/Dht/Pool/Stats.antt =====
-- internal/dht/pool.go: the statistics, with `Stats` of a node.
use bt_dht_crawler.Prelude.{ℕ, ◌+◌, ◌%◌, ◌^◌, List, [], ◌∷◌, length, Option, none, some}
use bt_dht_crawler.Dht.Routing.{size}
use bt_dht_crawler.Dht.Active.{Active}

pub record PoolStats : Type 0 where
  pub queries_received : ℕ
  pub queries_sent : ℕ
  pub get_peers_count : ℕ
  pub announce_count : ℕ
  pub total_nodes : ℕ
  pub routing_size : ℕ

-- `PoolStats{}`
abbrev pub no_stats : PoolStats
no_stats = record {
  queries_received = 0;
  queries_sent = 0;
  get_peers_count = 0;
  announce_count = 0;
  total_nodes = 0;
  routing_size = 0;
}

-- The additions for one node; the counters have 64 bits.
unfoldable pub add_stats : PoolStats → Active → PoolStats
unfolding size
add_stats s a = record s {
  queries_received = (s.queries_received + a.node.queries_received) % 2 ^ 64;
  queries_sent = (s.queries_sent + a.queries_sent) % 2 ^ 64;
  get_peers_count = (s.get_peers_count + a.node.get_peers_count) % 2 ^ 64;
  announce_count = (s.announce_count + a.node.announce_count) % 2 ^ 64;
  routing_size = s.routing_size + size a.node.table;
}

unfoldable pub add_all_stats : PoolStats → List Active → PoolStats
unfolding add_stats
add_all_stats s [] = s
add_all_stats s (a ∷ nodes) = add_all_stats (add_stats s a) nodes

-- A tick of `collectStats`.
unfoldable pub collect_stats : List Active → PoolStats
unfolding add_all_stats
collect_stats nodes = add_all_stats (record no_stats { total_nodes = length nodes }) nodes

-- `Stats`, by what was stored last.
abbrev pub pool_stats : Option PoolStats → PoolStats
pool_stats none = no_stats
pool_stats (some s) = s
