-- ===== src/Dht/Node.antt =====
-- internal/dht/node.go: the handlers of incoming messages.
-- A handler runs to its end before the next (the source runs each in a goroutine; it locks the table,
-- the secrets and the pending transactions one by one). Packets and events are appended to a log.
pub mod Invariant
pub mod Output
pub mod Announce
use bt_dht_crawler.Prelude.{
  ℕ, zero, suc, ◌+◌, ◌-◌, ◌*◌, ◌^◌, ◌≤◌, ◌<◌, ◌≡◌, ◌≢◌, refl, sym, ap, ap₂, ◌∙◌, subst, Bool, true,
  false, not, ◌&&◌, ◌||◌, ◌/◌, ◌%◌, List, [], ◌∷◌, ◌++◌, append_assoc, append-nil, map, Bytes,
  codes, bytes_eq, bytes_eq→eq, eq→bytes_eq, bytes_eq_refl, Option-cases, length, length-append,
  take, drop, take-append, drop-append, All, All-append, Pairwise, Pairwise-middle, ltb, leb, ◌==◌,
  if◌then◌else◌, Outcome, ok, err, panic, Error, ◌>>=◌, Bool-cases, inl, inr, ◌⊎◌, arith, Option,
  none, some,
}
use bt_dht_crawler.Prelude.Int.{ℤ, pos}
use bt_dht_crawler.Bt.Value.{Value, Dict, bytes, lookup}
use bt_dht_crawler.Dht.Id.{NodeId, from_bytes}
use bt_dht_crawler.Dht.Routing
use bt_dht_crawler.Dht.Routing.{RoutingNode, RoutingTable, bucket_size, find_closest}
use bt_dht_crawler.Dht.Compact.{CompactNodeInfo}
use bt_dht_crawler.Dht.Krpc.{
  Message, msg_type_query, msg_type_response, query_ping, query_find_node, query_get_peers,
  query_announce_peer, encode_ping_response, encode_find_node_response,
  encode_get_peers_response_nodes, encode_announce_peer_response,
}
use bt_dht_crawler.Dht.Krpc.Receive.{
  decode_message, get_query_node_id, get_info_hash, get_target, get_port, get_token,
  get_response_nodes,
}
use bt_dht_crawler.Dht.Token.{generate_token, validate_token}

pub data EventType : Type 0 where
  get_peers announce : EventType

pub record Event : Type 0 where
  pub type_ : EventType
  pub info_hash : Bytes
  pub peer_ip : Bytes
  pub peer_port : ℤ

-- A `net.UDPAddr`.
pub record Address : Type 0 where
  pub ip : Bytes
  pub port : ℕ

pub record Packet : Type 0 where
  pub payload : Bytes
  pub to : Address

-- The fields that the handlers use. `event_chan` holds what waits in the channel, `event_room` its
-- capacity; `pending` are the transactions that a `FindPeers` waits for, and `answers` what they were
-- sent.
pub record Node : Type 0 where
  pub id : NodeId
  pub table : RoutingTable
  pub event_chan : List Event
  pub event_room : ℕ
  pub token_secret : Bytes
  pub last_secret : Bytes
  pub queries_received : ℕ
  pub get_peers_count : ℕ
  pub announce_count : ℕ
  pub pending : List Bytes
  pub answers : List (Bytes × Message)
  pub sent : List Packet

-- `atomic.Uint64.Add(1)`
abbrev pub add_one : ℕ → ℕ
add_one n = (n + 1) % 2 ^ 64

-- `resp, _ := Encode…; n.conn.WriteToUDP(resp, addr)`: a failed encoding sends an empty packet.
abbrev payload_of : Outcome Bytes → Bytes
payload_of (ok b) = b
payload_of (err e) = []
payload_of panic = []

unfoldable pub send : Outcome Bytes → Address → Node → Node
send resp addr n = record n {
  sent = n.sent ++ (record { payload = payload_of resp; to = addr } ∷ []);
}

-- `select { case n.eventChan <- e: default: }`
unfoldable pub emit : Event → Node → Node
emit e n =
    if ltb (length n.event_chan) n.event_room
    then record n { event_chan = n.event_chan ++ (e ∷ []) }
    else n

abbrev pub compact : RoutingNode → CompactNodeInfo
compact r = record { id = r.id; ip = r.ip; port = r.port }

-- The closest nodes in compact form.
unfoldable pub closest_nodes : NodeId → Node → List CompactNodeInfo
closest_nodes target n = map compact (find_closest target bucket_size n.table)

unfoldable pub handle_ping : Message → Address → Node → Node
handle_ping msg addr n = send (encode_ping_response msg.transaction_id n.id) addr n

unfoldable pub handle_find_node : Message → Address → Node → Node
handle_find_node msg addr n = elim (get_target msg) [
  | none ↦ n
  | some target ↦
      send (encode_find_node_response msg.transaction_id n.id (closest_nodes target n)) addr n
]

-- The event of a `get_peers` query.
abbrev pub get_peers_event : Bytes → Address → Event
get_peers_event info_hash addr = record {
  type_ = get_peers;
  info_hash = info_hash;
  peer_ip = addr.ip;
  peer_port = pos addr.port;
}

unfoldable pub reply_get_peers : Message → Bytes → Address → Node → Outcome Node
reply_get_peers msg info_hash addr n = generate_token n.token_secret addr.ip >>= λ token. ok (
    send (encode_get_peers_response_nodes msg.transaction_id n.id token (closest_nodes info_hash n))
      addr n)

unfoldable pub handle_get_peers : Message → Address → Node → Outcome Node
handle_get_peers msg addr n = elim (get_info_hash msg) [
  | none ↦ ok n
  | some info_hash ↦ reply_get_peers msg info_hash addr (
      emit (get_peers_event info_hash addr)
        (record n { get_peers_count = add_one n.get_peers_count }))
]

-- The port of the query, or else the source port.
abbrev pub port_or_source : Option ℤ → Address → ℤ
port_or_source none addr = pos addr.port
port_or_source (some p) addr = p

abbrev pub announce_event : Message → Bytes → Address → Event
announce_event msg info_hash addr = record {
  type_ = announce;
  info_hash = info_hash;
  peer_ip = addr.ip;
  peer_port = port_or_source (get_port msg) addr;
}

-- What follows a valid token.
unfoldable pub accept_announce : Message → Bytes → Address → Node → Node
accept_announce msg info_hash addr n =
    send (encode_announce_peer_response msg.transaction_id n.id) addr (
      emit (announce_event msg info_hash addr)
        (record n { announce_count = add_one n.announce_count }))

unfoldable pub check_announce : Message → Bytes → Option Bytes → Address → Node → Outcome Node
check_announce msg info_hash none addr n = ok n
check_announce msg info_hash (some token) addr n =
    validate_token n.token_secret n.last_secret token addr.ip >>= λ valid.
    ok (if valid then accept_announce msg info_hash addr n else n)

unfoldable pub handle_announce_peer : Message → Address → Node → Outcome Node
handle_announce_peer msg addr n = elim (get_info_hash msg) [
  | none ↦ ok n
  | some info_hash ↦ check_announce msg info_hash (get_token msg) addr n
]

-- `n.routingTable.Insert(id, addr.IP, addr.Port)` at the time `now`.
abbrev pub note_node : ℕ → NodeId → Bytes → ℕ → Node → Node
note_node now id ip port n = record n { table = (Routing.insert now id ip port n.table).0 }

unfoldable pub note_sender : ℕ → Option NodeId → Address → Node → Node
note_sender now none addr n = n
note_sender now (some id) addr n = note_node now id addr.ip addr.port n

unfoldable pub dispatch_query : Message → Address → Node → Outcome Node
dispatch_query msg addr n =
    if bytes_eq msg.query query_ping
    then ok (handle_ping msg addr n)
    else if bytes_eq msg.query query_find_node
    then ok (handle_find_node msg addr n)
    else if bytes_eq msg.query query_get_peers
    then handle_get_peers msg addr n
    else if bytes_eq msg.query query_announce_peer
    then handle_announce_peer msg addr n
    else ok n

unfoldable pub handle_query : ℕ → Message → Address → Node → Outcome Node
handle_query now msg addr n =
    dispatch_query msg addr (note_sender now (get_query_node_id msg) addr n)

-- `msg.Response["id"].([]byte)` and `FromBytes`.
abbrev id_of_value : Option Value → Option NodeId
id_of_value (some (bytes b)) = elim (from_bytes b) [ ok id ↦ some id | err e ↦ none | panic ↦ none ]
id_of_value _ = none

unfoldable pub response_id : Message → Option NodeId
response_id msg = elim msg.response [ none ↦ none | some r ↦ id_of_value (lookup (codes "id") r) ]

unfoldable pub remove_key : Bytes → List Bytes → List Bytes
remove_key k [] = []
remove_key k (j ∷ ks) = if bytes_eq j k then remove_key k ks else j ∷ remove_key k ks

unfoldable pub is_pending : Bytes → List Bytes → Bool
is_pending k [] = false
is_pending k (j ∷ ks) = bytes_eq j k || is_pending k ks

-- The waiting transaction gets the message, once.
unfoldable pub answer_pending : Message → Node → Node
answer_pending msg n =
    if is_pending msg.transaction_id n.pending
    then record n {
      pending = remove_key msg.transaction_id n.pending;
      answers = n.answers ++ ((msg.transaction_id, msg) ∷ []);
    }
    else n

unfoldable pub note_nodes : ℕ → List CompactNodeInfo → Node → Node
note_nodes now [] n = n
note_nodes now (c ∷ cs) n = note_nodes now cs (note_node now c.id c.ip c.port n)

unfoldable pub handle_response : ℕ → Message → Address → Node → Node
handle_response now msg addr n =
    note_nodes now (get_response_nodes msg)
      (answer_pending msg (note_sender now (response_id msg) addr n))

unfoldable pub dispatch_message : ℕ → Message → Address → Node → Outcome Node
dispatch_message now msg addr n =
    if bytes_eq msg.type_ msg_type_query
    then handle_query now msg addr n
    else if bytes_eq msg.type_ msg_type_response
    then ok (handle_response now msg addr n)
    else ok n

-- `handleMessage`: a text that is no message is dropped.
unfoldable pub handle_message : ℕ → Bytes → Address → Node → Outcome Node
handle_message now text addr n = elim (decode_message text) [
  | ok msg ↦
      dispatch_message now msg addr (record n { queries_received = add_one n.queries_received })
  | err e ↦ ok n
  | panic ↦ panic
]

-- A tick of `rotateSecrets`, with the new random secret.
unfoldable pub rotate_secrets : Bytes → Node → Node
rotate_secrets secret n = record n { last_secret = n.token_secret; token_secret = secret }
