-- ===== src/Dht/Life.antt =====
-- A node over its life: what it is sent, the queries of its ticks, and its searches, in any order.
pub mod Steps
pub mod Run
use bt_dht_crawler.Prelude.{ℕ, ◌^◌, ◌<◌}
use bt_dht_crawler.Dht.Node.Invariant.{IsGoodNode}
use bt_dht_crawler.Dht.Active.{Active}

-- The table is well-formed, the events fit into their channel, and the counter of transactions into 16 bits.
pub record IsLive (a : Active) : Type 0 where
  pub good : IsGoodNode a.node
  pub counter_fits : a.txn_counter < 2 ^ 16
