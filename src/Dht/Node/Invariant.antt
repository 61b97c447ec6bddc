-- ===== src/Dht/Node/Invariant.antt =====
-- What every incoming message keeps true of a node.
use bt_dht_crawler.Prelude.{
  ℕ, ◌≤◌, ◌≡◌, refl, Bool, true, false, List, [], ◌∷◌, Bytes, bytes_eq, Option-cases, length,
  length-append, ltb, ltb→lt, if◌then◌else◌, Outcome, ok, err, panic, Bool-cases, inl, inr, arith,
  Option, none, some,
}
use bt_dht_crawler.Prelude.{Ends, Ends-bind, Ends-if, Always}
use bt_dht_crawler.Dht.Id.{NodeId}
use bt_dht_crawler.Dht.Routing.Invariant.{IsValid, insert-IsValid}
use bt_dht_crawler.Dht.Compact.{CompactNodeInfo}
use bt_dht_crawler.Dht.Krpc.{
  Message, msg_type_query, msg_type_response, query_ping, query_find_node, query_get_peers,
  query_announce_peer,
}
use bt_dht_crawler.Dht.Krpc.Receive.{
  decode_message, get_query_node_id, get_info_hash, get_target, get_token, get_response_nodes,
}
use bt_dht_crawler.Dht.Token.{
  generate_token, validate_token, mask_secret, matches_prefix, second_try,
}
use bt_dht_crawler.Dht.Node.{
  Node, Event, Address, send, emit, handle_ping, handle_find_node, get_peers_event, reply_get_peers,
  handle_get_peers, announce_event, accept_announce, check_announce, handle_announce_peer,
  note_node, note_sender, dispatch_query, handle_query, response_id, is_pending, answer_pending,
  note_nodes, handle_response, dispatch_message, handle_message, add_one,
}

-- The routing table is well-formed, and the event channel holds no more than its capacity.
pub record IsGoodNode (n : Node) : Type 0 where
  pub table_valid : IsValid n.table
  pub events_fit : length n.event_chan ≤ n.event_room

send-IsGood :
    (resp : Outcome Bytes) (addr : Address) (n : Node)
    → IsGoodNode n
    → IsGoodNode (send resp addr n)
unfolding send
send-IsGood resp addr n g = record { table_valid = g.table_valid; events_fit = g.events_fit }

emit-IsGood : (e : Event) (n : Node) → IsGoodNode n → IsGoodNode (emit e n)
unfolding emit
emit-IsGood e n g = elim (Bool-cases (ltb (length n.event_chan) n.event_room)) [
  | inl t ↦ rw t (record {
    table_valid = g.table_valid;
    events_fit = omega (arith, length-append n.event_chan (e ∷ []), ltb→lt _ _ t);
  })
  | inr t ↦ rw t g
]

note_node-IsGood :
    (now : ℕ) (id : NodeId) (ip : Bytes) (port : ℕ) (n : Node)
    → IsGoodNode n
    → IsGoodNode (note_node now id ip port n)
note_node-IsGood now id ip port n g = record {
  table_valid = insert-IsValid now id ip port n.table g.table_valid;
  events_fit = g.events_fit;
}

note_sender-IsGood :
    (now : ℕ) (id : Option NodeId) (addr : Address) (n : Node)
    → IsGoodNode n
    → IsGoodNode (note_sender now id addr n)
unfolding note_sender
note_sender-IsGood now none addr n g = g
note_sender-IsGood now (some id) addr n g = note_node-IsGood now id addr.ip addr.port n g

pub note_nodes-IsGood :
    (now : ℕ) (cs : List CompactNodeInfo) (n : Node)
    → IsGoodNode n
    → IsGoodNode (note_nodes now cs n)
unfolding note_nodes
note_nodes-IsGood now [] n g = g
note_nodes-IsGood now (c ∷ cs) n g =
    note_nodes-IsGood now cs (note_node now c.id c.ip c.port n)
      (note_node-IsGood now c.id c.ip c.port n g)

handle_find_node-IsGood :
    (msg : Message) (addr : Address) (n : Node)
    → IsGoodNode n
    → IsGoodNode (handle_find_node msg addr n)
unfolding handle_find_node
handle_find_node-IsGood msg addr n g = elim (Option-cases (get_target msg)) [
  | inl e ↦ rw (e, handle_find_node) g
  | inr (t, e) ↦ rw (e, handle_find_node) (send-IsGood _ addr n g)
]

mask_secret-Ends : (secret ip : Bytes) → Ends Always (mask_secret secret ip)
unfolding mask_secret
mask_secret-Ends [] ip = tt
mask_secret-Ends (s ∷ ss) [] = tt
mask_secret-Ends (s ∷ ss) (b ∷ bs) = tt

pub generate_token-Ends : (secret ip : Bytes) → Ends Always (generate_token secret ip)
unfolding generate_token
generate_token-Ends secret ip =
    Ends-bind Always Always (mask_secret secret ip) _ (mask_secret-Ends secret ip) (λ m _. tt)

matches_prefix-Ends : (token x : Bytes) → Ends Always (matches_prefix token x)
unfolding matches_prefix
matches_prefix-Ends token x = elim (Bool-cases (ltb (length x) (length token))) [
  | inl e ↦ rw e tt
  | inr e ↦ rw e tt
]

pub validate_token-Ends : (s l token ip : Bytes) → Ends Always (validate_token s l token ip)
unfolding validate_token second_try
validate_token-Ends s l token ip =
    Ends-bind Always Always (generate_token s ip) _ (generate_token-Ends s ip) λ x _.
      Ends-bind Always Always (matches_prefix token x) _ (matches_prefix-Ends token x)
        λ first _. either first x
  where
    either :
        (first : Bool) (x : Bytes)
        → Ends Always (if first then ok true else second_try l token ip x)
    either true x = tt
    either false x =
        Ends-bind Always Always (mask_secret l ip) _ (mask_secret-Ends l ip)
          (λ m _. matches_prefix-Ends token _)

handle_get_peers-IsGood :
    (msg : Message) (addr : Address) (n : Node)
    → IsGoodNode n
    → Ends IsGoodNode (handle_get_peers msg addr n)
unfolding handle_get_peers reply_get_peers
handle_get_peers-IsGood msg addr n g = elim (Option-cases (get_info_hash msg)) [
  | inl e ↦ rw (e, handle_get_peers) g
  | inr (h, e) ↦
      rw (e, handle_get_peers)
        (reply h _ (
          emit-IsGood (get_peers_event h addr)
            (record n { get_peers_count = add_one n.get_peers_count })
            (record { table_valid = g.table_valid; events_fit = g.events_fit })))
]
  where
    reply : (h : Bytes) (m : Node) → IsGoodNode m → Ends IsGoodNode (reply_get_peers msg h addr m)
    reply h m gm =
        Ends-bind Always IsGoodNode (generate_token m.token_secret addr.ip) _
          (generate_token-Ends m.token_secret addr.ip) (λ t _. send-IsGood _ addr m gm)

accept_announce-IsGood :
    (msg : Message) (h : Bytes) (addr : Address) (n : Node)
    → IsGoodNode n
    → IsGoodNode (accept_announce msg h addr n)
unfolding accept_announce
accept_announce-IsGood msg h addr n g = send-IsGood _ addr _ (
    emit-IsGood (announce_event msg h addr) (record n { announce_count = add_one n.announce_count })
      (record { table_valid = g.table_valid; events_fit = g.events_fit }))

check_announce-IsGood :
    (msg : Message) (h : Bytes) (token : Option Bytes) (addr : Address) (n : Node)
    → IsGoodNode n
    → Ends IsGoodNode (check_announce msg h token addr n)
unfolding check_announce
check_announce-IsGood msg h none addr n g = g
check_announce-IsGood msg h (some token) addr n g =
    Ends-bind Always IsGoodNode (validate_token n.token_secret n.last_secret token addr.ip) _
      (validate_token-Ends n.token_secret n.last_secret token addr.ip) λ valid _. either valid
  where
    either : (b : Bool) → IsGoodNode (if b then accept_announce msg h addr n else n)
    either true = accept_announce-IsGood msg h addr n g
    either false = g

handle_announce_peer-IsGood :
    (msg : Message) (addr : Address) (n : Node)
    → IsGoodNode n
    → Ends IsGoodNode (handle_announce_peer msg addr n)
unfolding handle_announce_peer
handle_announce_peer-IsGood msg addr n g = elim (Option-cases (get_info_hash msg)) [
  | inl e ↦ rw (e, handle_announce_peer) g
  | inr (h, e) ↦ rw (e, handle_announce_peer) (check_announce-IsGood msg h (get_token msg) addr n g)
]

handle_query-IsGood :
    (now : ℕ) (msg : Message) (addr : Address) (n : Node)
    → IsGoodNode n
    → Ends IsGoodNode (handle_query now msg addr n)
unfolding handle_query dispatch_query handle_ping
handle_query-IsGood now msg addr n g =
    Ends-if _ (bytes_eq msg.query query_ping) _ _ (send-IsGood _ addr m gm) (
      Ends-if _ (bytes_eq msg.query query_find_node) _ _ (handle_find_node-IsGood msg addr m gm) (
        Ends-if _ (bytes_eq msg.query query_get_peers) _ _ (handle_get_peers-IsGood msg addr m gm) (
          Ends-if _ (bytes_eq msg.query query_announce_peer) _ _
            (handle_announce_peer-IsGood msg addr m gm) gm)))
  where
    m : Node
    m = note_sender now (get_query_node_id msg) addr n

    gm : IsGoodNode m
    gm = note_sender-IsGood now (get_query_node_id msg) addr n g

answer_pending-IsGood :
    (msg : Message) (n : Node) → IsGoodNode n → IsGoodNode (answer_pending msg n)
unfolding answer_pending
answer_pending-IsGood msg n g = elim (Bool-cases (is_pending msg.transaction_id n.pending)) [
  | inl e ↦ rw e (record { table_valid = g.table_valid; events_fit = g.events_fit })
  | inr e ↦ rw e g
]

handle_response-IsGood :
    (now : ℕ) (msg : Message) (addr : Address) (n : Node)
    → IsGoodNode n
    → IsGoodNode (handle_response now msg addr n)
unfolding handle_response
handle_response-IsGood now msg addr n g =
    note_nodes-IsGood now (get_response_nodes msg) _
      (answer_pending-IsGood msg _ (note_sender-IsGood now (response_id msg) addr n g))

dispatch_message-IsGood :
    (now : ℕ) (msg : Message) (addr : Address) (n : Node)
    → IsGoodNode n
    → Ends IsGoodNode (dispatch_message now msg addr n)
unfolding dispatch_message
dispatch_message-IsGood now msg addr n g =
    Ends-if _ (bytes_eq msg.type_ msg_type_query) _ _ (handle_query-IsGood now msg addr n g) (
      Ends-if _ (bytes_eq msg.type_ msg_type_response) _ _ (handle_response-IsGood now msg addr n g)
        g)

-- Whatever bytes arrive from whatever address at a node with a well-formed routing table and an
-- event channel within its capacity: if handling them does not panic, the table stays well-formed
-- and the channel within its capacity; and handling ends, as the fuel of the model is enough.
pub handle_message-IsGood :
    (now : ℕ) (text : Bytes) (addr : Address) (n : Node)
    → IsGoodNode n
    → Ends IsGoodNode (handle_message now text addr n)
unfolding handle_message
handle_message-IsGood now text addr n g = by_result (decode_message text) refl
  where
    by_result :
        (r : Outcome Message)
        → decode_message text ≡ r
        → Ends IsGoodNode (handle_message now text addr n)
    by_result (ok msg) e =
        rw (e, handle_message)
          (dispatch_message-IsGood now msg addr
            (record n { queries_received = add_one n.queries_received })
            (record { table_valid = g.table_valid; events_fit = g.events_fit }))
    by_result (err x) e = rw (e, handle_message) g
    by_result panic e = rw (e, handle_message) tt
