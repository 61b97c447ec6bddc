-- ===== src/Dht/Search.antt =====
-- internal/dht/node.go: `FindPeers`, the search of one node for the peers of an info hash.
-- One search at a time; the goroutines of a round ask in the order of the nodes.
pub mod Bound
use bt_dht_crawler.Prelude.{
  ℕ, zero, suc, ◌+◌, ◌-◌, ◌*◌, ◌^◌, ◌≤◌, ◌<◌, ◌≡◌, ◌≢◌, refl, sym, ap, ap₂, ◌∙◌, subst, Bool, true,
  false, not, ◌&&◌, ◌||◌, ◌/◌, ◌%◌, List, [], ◌∷◌, ◌++◌, append_assoc, append-nil, map, min, Bytes,
  codes, bytes_eq, bytes_eq→eq, eq→bytes_eq, bytes_eq_refl, bytes_eq-same, times, Option-cases,
  length, length-append, take, drop, get_elem?, set, replicate, length-set, length-take,
  length-drop, take-append, drop-append, All, All-append, Pairwise, Pairwise-middle, ltb, ltb→lt,
  lt→ltb, not_ltb→le, le→not_ltb, leb, ◌==◌, if◌then◌else◌, Outcome, ok, err, panic, Error, ◌>>=◌,
  Ends, Ends-bind, Ends-mono, Ends-if, Always, Bool-cases, inl, inr, ◌⊎◌, arith, Option, none, some,
}
use bt_dht_crawler.Prelude.Int.{ℤ, pos, negsuc, IsInt64}
use bt_dht_crawler.Dht.Id.{NodeId, hex}
use bt_dht_crawler.Dht.Routing.{RoutingNode, bucket_size, find_closest}
use bt_dht_crawler.Dht.Compact.{CompactNodeInfo, CompactPeerInfo}
use bt_dht_crawler.Dht.Krpc.{Message}
use bt_dht_crawler.Dht.Krpc.Receive.{get_response_nodes, get_response_peers}
use bt_dht_crawler.Dht.Node.{Node, Address, note_nodes, is_pending, remove_key}
use bt_dht_crawler.Dht.Active.{
  Active, Arrival, next_txn_id, ask_get_peers, udp_addr, target_of, handle_all,
}

-- The state of a round: `queried`, and the transactions that its goroutines wait for.
pub record Round : Type 0 where
  pub active : Active
  pub queried : List Bytes
  pub tids : List Bytes

-- `n.pendingTxns[string(tid)] = respChan`
unfoldable pub await : Bytes → Node → Node
unfolding remove_key
await tid n = record n { pending = tid ∷ remove_key tid n.pending }

-- One goroutine, up to its `select`.
unfoldable pub start_query : Bytes → RoutingNode → Round → Round
unfolding await next_txn_id
start_query info_hash r s =
    let tid = (next_txn_id s.active).0 in
    record {
      active =
          ask_get_peers info_hash (udp_addr r) (record s.active { node = await tid s.active.node });
      queried = hex r.id ∷ s.queried;
      tids = tid ∷ s.tids;
    }

-- The loop over the closest nodes, which passes over those that were queried.
unfoldable pub start_round : Bytes → List RoutingNode → Round → Round
unfolding start_query is_pending
start_round info_hash [] s = s
start_round info_hash (r ∷ rs) s =
    let skipped = start_round info_hash rs s in
    let asked = start_round info_hash rs (start_query info_hash r s) in
    if is_pending (hex r.id) s.queried then skipped else asked

-- What the goroutines collect from the responses, in the order in which these arrive.
unfoldable pub peers_in : List Bytes → List (Bytes × Message) → List CompactPeerInfo
unfolding is_pending
peers_in tids [] = []
peers_in tids ((tid, msg) ∷ answers) =
    let rest = peers_in tids answers in
    if is_pending tid tids then get_response_peers msg ++ rest else rest

unfoldable pub nodes_in : List Bytes → List (Bytes × Message) → List CompactNodeInfo
unfolding is_pending
nodes_in tids [] = []
nodes_in tids ((tid, msg) ∷ answers) =
    let rest = nodes_in tids answers in
    if is_pending tid tids then get_response_nodes msg ++ rest else rest

-- What happens while a round waits, and when it inserts the new nodes.
pub record Wait : Type 0 where
  pub arrivals : List Arrival
  pub until : ℕ

-- The end of a round: peers end the search, else the new nodes are inserted and the next round follows.
unfoldable pub settle_round :
    (Active → Outcome (List CompactPeerInfo × Active))
    → ℕ
    → List Bytes
    → List (Bytes × Message)
    → Active
    → Outcome (List CompactPeerInfo × Active)
unfolding peers_in nodes_in
settle_round next until tids answers b = elim (peers_in tids answers) [
  | [] ↦ next (record b { node = note_nodes until (nodes_in tids answers) b.node })
  | p ∷ ps ↦ ok (p ∷ ps, b)
]

abbrev pub asked_round : Bytes → List RoutingNode → List Bytes → Active → Round
asked_round info_hash closest queried a =
    start_round info_hash closest (record { active = a; queried = queried; tids = [] })

-- The rounds: `allPeers` is empty before each, and a table without nodes ends the search.
unfoldable pub search_rounds :
    List Wait → Bytes → List Bytes → Active → Outcome (List CompactPeerInfo × Active)
unfolding start_round handle_all settle_round target_of
search_rounds [] info_hash queried a = ok ([], a)
search_rounds (w ∷ ws) info_hash queried a =
    elim (find_closest (target_of info_hash) bucket_size a.node.table) [
      | [] ↦ ok ([], a)
      | r ∷ rs ↦
          let s = asked_round info_hash (r ∷ rs) queried a in
          handle_all w.arrivals s.active >>= λ b.
          settle_round (search_rounds ws info_hash s.queried) w.until s.tids
            (drop (length a.node.answers) b.node.answers) b
    ]

-- `FindPeers`
unfoldable pub find_peers :
    Wait → Wait → Wait → Bytes → Active → Outcome (List CompactPeerInfo × Active)
unfolding search_rounds
find_peers first second third info_hash a =
    search_rounds (first ∷ second ∷ third ∷ []) info_hash [] a
