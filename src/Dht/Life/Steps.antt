-- ===== src/Dht/Life/Steps.antt =====
-- Each thing that a node does keeps it in order.
use bt_dht_crawler.Prelude.{
  ℕ, zero, suc, ◌*◌, List, [], ◌∷◌, Bytes, Option-cases, length, drop, ltb, Outcome, Ends,
  Ends-bind, Ends-if, Bool-cases, inl, inr, arith, Option,
}
use bt_dht_crawler.Dht.Id.{NodeId, hex}
use bt_dht_crawler.Dht.Routing.{RoutingNode, bucket_size, find_closest, size}
use bt_dht_crawler.Dht.Krpc.{Message, encode_find_node}
use bt_dht_crawler.Dht.Compact.{CompactPeerInfo}
use bt_dht_crawler.Dht.Node.{Address, send, note_nodes, is_pending, handle_message}
use bt_dht_crawler.Dht.Node.Invariant.{IsGoodNode, handle_message-IsGood, note_nodes-IsGood}
use bt_dht_crawler.Dht.Active.{
  Active, Arrival, next_txn_id, ask, udp_addr, ask_find_node, ask_get_peers, ask_each, target_of,
  handle_all, drawn_one, active_query, refresh_loop, ask_random, greet, greet_all, visit,
  bootstrap_rounds, bootstrap, bootstrap_tick, query_tick,
}
use bt_dht_crawler.Dht.Search.{
  Round, Wait, await, start_query, start_round, peers_in, nodes_in, settle_round, asked_round,
  search_rounds,
}
use bt_dht_crawler.Prelude.Elements.{List-cases}
use bt_dht_crawler.Dht.Life.{IsLive}

ask-IsLive :
    (query : Bytes → Outcome Bytes) (addr : Address) (a : Active)
    → IsLive a
    → IsLive (ask query addr a)
unfolding ask next_txn_id send
ask-IsLive query addr a l = record {
  good = record { table_valid = l.good.table_valid; events_fit = l.good.events_fit };
  counter_fits = omega arith;
}

ask_find_node-IsLive :
    (target : NodeId) (addr : Address) (a : Active)
    → IsLive a
    → IsLive (ask_find_node target addr a)
ask_find_node-IsLive target addr a l =
    ask-IsLive (λ tid. encode_find_node tid a.node.id target) addr a l

-- What keeps a node in order.
abbrev pub Keeps : (Active → Active) → Type 0
Keeps f = (a : Active) → IsLive a → IsLive (f a)

ask_each-IsLive :
    (query : Address → Active → Active) (rs : List RoutingNode)
    → ((addr : Address) → Keeps (query addr))
    → Keeps (ask_each query rs)
unfolding ask_each
ask_each-IsLive query [] keeps a l = l
ask_each-IsLive query (r ∷ rs) keeps a l =
    ask_each-IsLive query rs keeps (query (udp_addr r) a) (keeps (udp_addr r) a l)

pub handle_all-IsLive : (ps : List Arrival) (a : Active) → IsLive a → Ends IsLive (handle_all ps a)
unfolding handle_all
handle_all-IsLive [] a l = l
handle_all-IsLive (p ∷ ps) a l =
    Ends-bind IsGoodNode IsLive (handle_message p.at p.payload p.from a.node) _
      (handle_message-IsGood p.at p.payload p.from a.node l.good)
      (λ n g.
        handle_all-IsLive ps (record a { node = n })
          (record { good = g; counter_fits = l.counter_fits }))

module _ (random : ℕ → Bytes) where
  drawn_one-IsLive : Keeps (drawn_one random)
  drawn_one-IsLive a l = record { good = l.good; counter_fits = l.counter_fits }

  active_query-IsLive : Keeps (active_query random)
  unfolding active_query
  active_query-IsLive a l =
      ask_each-IsLive (ask_get_peers (random a.drawn))
        (find_closest (target_of (random a.drawn)) 3 a.node.table)
        (λ addr b k. ask-IsLive _ addr b k) (drawn_one random a) (drawn_one-IsLive a l)

  pub query_tick-IsLive : Keeps (query_tick random)
  query_tick-IsLive a l = active_query-IsLive _ (active_query-IsLive _ (active_query-IsLive a l))

  pub refresh_loop-IsLive : (n : ℕ) → Keeps (refresh_loop random n)
  unfolding refresh_loop
  refresh_loop-IsLive zero a l = l
  refresh_loop-IsLive (suc n) a l = refresh_loop-IsLive n _ (
      ask_each-IsLive (ask_find_node (random a.drawn))
        (find_closest (random a.drawn) 3 a.node.table) (λ addr b k. ask-IsLive _ addr b k)
        (drawn_one random a) (drawn_one-IsLive a l))

  ask_random-IsLive : (addr : Address) → Keeps (ask_random random addr)
  unfolding ask_random
  ask_random-IsLive addr a l = ask-IsLive _ addr (drawn_one random a) (drawn_one-IsLive a l)

  greet-IsLive : (addr : Address) → Keeps (greet random addr)
  unfolding greet
  greet-IsLive addr a l = ask_random-IsLive addr _ (
      ask_random-IsLive addr _ (ask_random-IsLive addr _ (ask_find_node-IsLive a.node.id addr a l)))

  visit-IsLive : (addr : Address) → Keeps (visit random addr)
  unfolding visit
  visit-IsLive addr a l = ask_random-IsLive addr _ (ask_find_node-IsLive a.node.id addr a l)

  greet_all-IsLive :
      (resolve : Bytes → Option Address) (bs : List Bytes) → Keeps (greet_all random resolve bs)
  unfolding greet_all
  greet_all-IsLive resolve [] a l = l
  greet_all-IsLive resolve (b ∷ bs) a l = elim (Option-cases (resolve b)) [
    | inl e ↦ rw (greet_all, e) (greet_all-IsLive resolve bs a l)
    | inr (addr, e) ↦
        rw (greet_all, e)
          (greet_all-IsLive resolve bs (greet random addr a) (greet-IsLive addr a l))
  ]

  bootstrap_rounds-IsLive :
      (rounds : List (List Arrival)) (a : Active)
      → IsLive a
      → Ends IsLive (bootstrap_rounds random rounds a)
  unfolding bootstrap_rounds
  bootstrap_rounds-IsLive [] a l = l
  bootstrap_rounds-IsLive (ps ∷ rounds) a l =
      let asked : Active =
        ask_each (visit random) (find_closest a.node.id (bucket_size * 2) a.node.table) a in
      Ends-bind IsLive IsLive (handle_all ps asked) _
        (handle_all-IsLive ps asked (
          ask_each-IsLive (visit random) (find_closest a.node.id (bucket_size * 2) a.node.table)
            visit-IsLive a l))
        (bootstrap_rounds-IsLive rounds)

  pub bootstrap_tick-IsLive :
      (resolve : Bytes → Option Address) (bs : List Bytes)
      (first second third fourth : List Arrival) (a : Active)
      → IsLive a
      → Ends IsLive (bootstrap_tick random resolve bs first second third fourth a)
  unfolding bootstrap_tick bootstrap
  bootstrap_tick-IsLive resolve bs first second third fourth a l =
      Ends-if IsLive (ltb (size a.node.table) (bucket_size * 2)) _ _
        (Ends-bind IsLive IsLive (handle_all first (greet_all random resolve bs a)) _
          (handle_all-IsLive first (greet_all random resolve bs a)
            (greet_all-IsLive resolve bs a l))
          (bootstrap_rounds-IsLive (second ∷ third ∷ fourth ∷ [])))
        l

start_query-IsLive :
    (info_hash : Bytes) (r : RoutingNode) (s : Round)
    → IsLive s.active
    → IsLive (start_query info_hash r s).active
unfolding start_query await ask next_txn_id send
start_query-IsLive info_hash r s l = record {
  good = record { table_valid = l.good.table_valid; events_fit = l.good.events_fit };
  counter_fits = omega arith;
}

start_round-IsLive :
    (info_hash : Bytes) (rs : List RoutingNode) (s : Round)
    → IsLive s.active
    → IsLive (start_round info_hash rs s).active
unfolding start_round
start_round-IsLive info_hash [] s l = l
start_round-IsLive info_hash (r ∷ rs) s l = elim (Bool-cases (is_pending (hex r.id) s.queried)) [
  | inl e ↦ rw e (start_round-IsLive info_hash rs s l)
  | inr e ↦ rw e (
      start_round-IsLive info_hash rs (start_query info_hash r s)
        (start_query-IsLive info_hash r s l))
]

abbrev Found : Type 0
Found = List CompactPeerInfo × Active

settle_round-IsLive :
    (next : Active → Outcome Found) (until : ℕ) (tids : List Bytes)
    (answers : List (Bytes × Message)) (b : Active)
    → IsLive b
    → ((b' : Active) → IsLive b' → Ends (λ r. IsLive r.1) (next b'))
    → Ends (λ r. IsLive r.1) (settle_round next until tids answers b)
unfolding settle_round
settle_round-IsLive next until tids answers b l later = elim (List-cases (peers_in tids answers)) [
  | inl e ↦
      rw (settle_round, e)
        (later (record b { node = note_nodes until (nodes_in tids answers) b.node })
          (record {
            good = note_nodes-IsGood until (nodes_in tids answers) b.node l.good;
            counter_fits = l.counter_fits;
          }))
  | inr (p, ps, e) ↦ rw (settle_round, e) l
]

pub search_rounds-IsLive :
    (ws : List Wait) (info_hash : Bytes) (queried : List Bytes) (a : Active)
    → IsLive a
    → Ends (λ r. IsLive r.1) (search_rounds ws info_hash queried a)
unfolding search_rounds
search_rounds-IsLive [] info_hash queried a l = l
search_rounds-IsLive (w ∷ ws) info_hash queried a l =
    elim (List-cases (find_closest (target_of info_hash) bucket_size a.node.table)) [
      | inl e ↦ rw (search_rounds, e) l
      | inr (r, rs, e) ↦
          let s : Round = asked_round info_hash (r ∷ rs) queried a in
          rw (search_rounds, e)
            (Ends-bind IsLive _ (handle_all w.arrivals s.active) _
              (handle_all-IsLive w.arrivals s.active (
                start_round-IsLive info_hash (r ∷ rs)
                  (record { active = a; queried = queried; tids = [] }) l))
              λ b k.
                settle_round-IsLive (search_rounds ws info_hash s.queried) w.until s.tids
                  (drop (length a.node.answers) b.node.answers) b k
                  (search_rounds-IsLive ws info_hash s.queried))
    ]
