-- ===== src/Dht/Active.antt =====
-- internal/dht/node.go: the queries that a node sends by itself, in `Bootstrap` and in the ticks of `refreshLoop`.
-- `random` is the source of randomness: the identifiers that `rand.Read` fills in one after the other. While
-- a node sleeps, the packets that arrive are handled.
use bt_dht_crawler.Prelude.{
  ℕ, zero, suc, ◌+◌, ◌*◌, ◌^◌, ◌/◌, ◌%◌, List, [], ◌∷◌, Bytes, ltb, if◌then◌else◌, Outcome, ok, err,
  panic, ◌>>=◌, Option, none, some,
}
use bt_dht_crawler.Dht.Id.{NodeId, from_bytes, zero_id}
use bt_dht_crawler.Dht.Routing.{RoutingNode, bucket_size, find_closest, size}
use bt_dht_crawler.Dht.Krpc.{encode_find_node, encode_get_peers}
use bt_dht_crawler.Dht.Node.{Node, Address, send, add_one, handle_message}

-- The node with the rest of its fields: the 16 bits of `txnIDCounter`, `queriesSent`, and how many identifiers
-- were drawn.
pub record Active : Type 0 where
  pub node : Node
  pub txn_counter : ℕ
  pub queries_sent : ℕ
  pub drawn : ℕ

-- A packet that the read loop hands over, with its time.
pub record Arrival : Type 0 where
  pub at : ℕ
  pub payload : Bytes
  pub from : Address

unfoldable pub txn_bytes : ℕ → Bytes
txn_bytes n = n / 2 ^ 8 % 2 ^ 8 ∷ n % 2 ^ 8 ∷ []

-- `nextTxnID`
unfoldable pub next_txn_id : Active → Bytes × Active
unfolding txn_bytes
next_txn_id a = (
  txn_bytes ((a.txn_counter + 1) % 2 ^ 16),
  record a { txn_counter = (a.txn_counter + 1) % 2 ^ 16 },
)

-- `tid := n.nextTxnID()`, the query with it, `WriteToUDP` and `queriesSent.Add(1)`.
unfoldable pub ask : (Bytes → Outcome Bytes) → Address → Active → Active
unfolding next_txn_id send
ask query addr a =
    let r = next_txn_id a in
    record r.1 { node = send (query r.0) addr r.1.node; queries_sent = add_one r.1.queries_sent }

-- `UDPAddr`
abbrev pub udp_addr : RoutingNode → Address
udp_addr r = record { ip = r.ip; port = r.port }

abbrev pub ask_find_node : NodeId → Address → Active → Active
ask_find_node target addr a = ask (λ tid. encode_find_node tid a.node.id target) addr a

abbrev pub ask_get_peers : Bytes → Address → Active → Active
ask_get_peers info_hash addr a = ask (λ tid. encode_get_peers tid a.node.id info_hash) addr a

-- The same query to each of the nodes.
unfoldable pub ask_each : (Address → Active → Active) → List RoutingNode → Active → Active
ask_each query [] a = a
ask_each query (r ∷ rs) a = ask_each query rs (query (udp_addr r) a)

-- `target, _ := FromBytes(hash)`: another length gives the zero identifier.
unfoldable pub target_of : Bytes → NodeId
target_of hash = elim (from_bytes hash) [ ok id ↦ id | err e ↦ zero_id | panic ↦ zero_id ]

-- The packets that arrive during a sleep.
unfoldable pub handle_all : List Arrival → Active → Outcome Active
handle_all [] a = ok a
handle_all (p ∷ ps) a =
    handle_message p.at p.payload p.from a.node >>= λ n. handle_all ps (record a { node = n })

module _ (random : ℕ → Bytes) where
  -- `rand.Read(id[:])`
  abbrev pub drawn_one : Active → Active
  drawn_one a = record a { drawn = suc a.drawn }

  -- `activeQuery`
  unfoldable pub active_query : Active → Active
  unfolding ask_each target_of
  active_query a =
      ask_each (ask_get_peers (random a.drawn))
        (find_closest (target_of (random a.drawn)) 3 a.node.table) (drawn_one a)

  -- The loop of `refresh`.
  unfoldable pub refresh_loop : ℕ → Active → Active
  unfolding ask_each
  refresh_loop zero a = a
  refresh_loop (suc k) a = refresh_loop k (
      ask_each (ask_find_node (random a.drawn)) (find_closest (random a.drawn) 3 a.node.table)
        (drawn_one a))

  abbrev pub refresh : Active → Active
  refresh a = refresh_loop 10 a

  -- `find_node` for a random identifier.
  unfoldable pub ask_random : Address → Active → Active
  ask_random addr a = ask_find_node (random a.drawn) addr (drawn_one a)

  -- The queries to one bootstrap node.
  unfoldable pub greet : Address → Active → Active
  unfolding ask_random ask
  greet addr a =
      ask_random addr (ask_random addr (ask_random addr (ask_find_node a.node.id addr a)))

  -- The loop over the bootstrap nodes; a name that is not resolved is passed over.
  unfoldable pub greet_all : (Bytes → Option Address) → List Bytes → Active → Active
  unfolding greet
  greet_all resolve [] a = a
  greet_all resolve (b ∷ bs) a = elim (resolve b) [
    | none ↦ greet_all resolve bs a
    | some addr ↦ greet_all resolve bs (greet addr a)
  ]

  -- One node of a round.
  unfoldable pub visit : Address → Active → Active
  unfolding ask_random ask
  visit addr a = ask_random addr (ask_find_node a.node.id addr a)

  -- The rounds, each with what arrives in its second of sleep.
  unfoldable pub bootstrap_rounds : List (List Arrival) → Active → Outcome Active
  unfolding ask_each visit handle_all
  bootstrap_rounds [] a = ok a
  bootstrap_rounds (ps ∷ rounds) a =
      handle_all ps (ask_each visit (find_closest a.node.id (bucket_size * 2) a.node.table) a)
      >>= bootstrap_rounds rounds

  -- `Bootstrap`, with what arrives in the four sleeps.
  unfoldable pub bootstrap :
      (Bytes → Option Address)
      → List Bytes
      → List Arrival
      → List Arrival
      → List Arrival
      → List Arrival
      → Active
      → Outcome Active
  unfolding greet_all handle_all bootstrap_rounds
  bootstrap resolve bootstraps first second third fourth a =
      handle_all first (greet_all resolve bootstraps a)
      >>= bootstrap_rounds (second ∷ third ∷ fourth ∷ [])

  -- The cases of the `select` in `refreshLoop`.
  unfoldable pub bootstrap_tick :
      (Bytes → Option Address)
      → List Bytes
      → List Arrival
      → List Arrival
      → List Arrival
      → List Arrival
      → Active
      → Outcome Active
  unfolding bootstrap
  bootstrap_tick resolve bootstraps first second third fourth a =
      if ltb (size a.node.table) (bucket_size * 2)
      then bootstrap resolve bootstraps first second third fourth a
      else ok a

  abbrev pub query_tick : Active → Active
  query_tick a = active_query (active_query (active_query a))
