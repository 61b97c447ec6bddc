-- ===== src/Dht/Life/Run.antt =====
-- All that can become of a node.
use bt_dht_crawler.Prelude.{ℕ, ◌≡◌, subst, List, [], ◌∷◌, Bytes, Outcome, ok, Ends, Option}
use bt_dht_crawler.Dht.Compact.{CompactPeerInfo}
use bt_dht_crawler.Dht.Node.{Node, Address, handle_message, rotate_secrets}
use bt_dht_crawler.Dht.Node.Invariant.{IsGoodNode, handle_message-IsGood}
use bt_dht_crawler.Dht.Active.{Active, Arrival, refresh, bootstrap_tick, query_tick}
use bt_dht_crawler.Dht.Search.{Wait, find_peers}
use bt_dht_crawler.Dht.Life.{IsLive}
use bt_dht_crawler.Dht.Life.Steps.{
  query_tick-IsLive, refresh_loop-IsLive, bootstrap_tick-IsLive, search_rounds-IsLive,
}

-- The states that a node comes to from `first`: a packet is handled, a tick of `refreshLoop` or of
-- `rotateSecrets` comes, or `FindPeers` is called, with whatever arrives meanwhile.
pub data Life (random : ℕ → Bytes) (resolve : Bytes → Option Address) (bootstraps : List Bytes)
    (first : Active) : Active → Type 0 where
  starts : Life random resolve bootstraps first first
  handles :
      (now : ℕ) (text : Bytes) (addr : Address) (a : Active) (n : Node)
      → handle_message now text addr a.node ≡ ok n
      → Life random resolve bootstraps first a
      → Life random resolve bootstraps first (record a { node = n })
  queries :
      (a : Active)
      → Life random resolve bootstraps first a
      → Life random resolve bootstraps first (query_tick random a)
  refreshes :
      (a : Active)
      → Life random resolve bootstraps first a
      → Life random resolve bootstraps first (refresh random a)
  joins :
      (p q r s : List Arrival) (a b : Active)
      → bootstrap_tick random resolve bootstraps p q r s a ≡ ok b
      → Life random resolve bootstraps first a
      → Life random resolve bootstraps first b
  searches :
      (u v w : Wait) (info_hash : Bytes) (peers : List CompactPeerInfo) (a b : Active)
      → find_peers u v w info_hash a ≡ ok (peers, b)
      → Life random resolve bootstraps first a
      → Life random resolve bootstraps first b
  rotates :
      (secret : Bytes) (a : Active)
      → Life random resolve bootstraps first a
      → Life random resolve bootstraps first (record a { node = rotate_secrets secret a.node })

ended : {A : Type 0} (P : A → Type 0) (m : Outcome A) (x : A) → m ≡ ok x → Ends P m → P x
ended P m x e h = subst (Ends P) e h

-- Whatever a node is sent, and in whatever order its ticks and its searches come: if it starts with a well-formed
-- routing table, with its events within the capacity of their channel and its counter of transactions within 16
-- bits, then they stay so.
pub Life-IsLive :
    (random : ℕ → Bytes) (resolve : Bytes → Option Address) (bootstraps : List Bytes)
    (first a : Active)
    → IsLive first
    → Life random resolve bootstraps first a
    → IsLive a
unfolding find_peers rotate_secrets
Life-IsLive random resolve bootstraps first a l Life.starts = l
Life-IsLive random resolve bootstraps first _ l (Life.handles now text addr a n e life) =
    let k = Life-IsLive random resolve bootstraps first a l life in
    record {
      good =
          ended IsGoodNode (handle_message now text addr a.node) n e
            (handle_message-IsGood now text addr a.node k.good);
      counter_fits = k.counter_fits;
    }
Life-IsLive random resolve bootstraps first _ l (Life.queries a life) =
    query_tick-IsLive random a (Life-IsLive random resolve bootstraps first a l life)
Life-IsLive random resolve bootstraps first _ l (Life.refreshes a life) =
    refresh_loop-IsLive random 10 a (Life-IsLive random resolve bootstraps first a l life)
Life-IsLive random resolve bootstraps first _ l (Life.joins p q r s a b e life) =
    ended IsLive (bootstrap_tick random resolve bootstraps p q r s a) b e (
      bootstrap_tick-IsLive random resolve bootstraps p q r s a
        (Life-IsLive random resolve bootstraps first a l life))
Life-IsLive random resolve bootstraps first _ l (Life.searches u v w info_hash peers a b e life) =
    ended (λ r. IsLive r.1) (find_peers u v w info_hash a) (peers, b) e
      (search_rounds-IsLive (u ∷ v ∷ w ∷ []) info_hash [] a
        (Life-IsLive random resolve bootstraps first a l life))
Life-IsLive random resolve bootstraps first _ l (Life.rotates secret a life) =
    let k = Life-IsLive random resolve bootstraps first a l life in
    record {
      good = record { table_valid = k.good.table_valid; events_fit = k.good.events_fit };
      counter_fits = k.counter_fits;
    }
