-- ===== src/Dht/Krpc/RoundTrip.antt =====
-- A message that one node sends is what the other reads.
use bt_dht_crawler.Prelude.{
  ◌*◌, ◌≤◌, ◌≡◌, refl, Bool, true, false, List, [], ◌∷◌, append-nil, Bytes, codes, length, All,
  if◌then◌else◌, ok, arith, none, some,
}
use bt_dht_crawler.Prelude.Int.{ℤ, IsInt64}
use bt_dht_crawler.Bt.Value.{Value, Dict, bytes, int, dict, lookup, from_list}
use bt_dht_crawler.Bt.Encode.{encode, bytes_less}
use bt_dht_crawler.Bt.Decode.{max_alloc, decode, decode_reader, decode_top_dict}
use bt_dht_crawler.Bt.Received.{IsEncodable, received}
use bt_dht_crawler.Bt.RoundTrip.{decode_reader-encode}
use bt_dht_crawler.Bt.RoundTrip.Lookup.{received_map}
use bt_dht_crawler.Bt.Literal.{literal-IsEncodable}
use bt_dht_crawler.Bt.Access.{get_string, get_bytes, get_int, get_dict, get_list}
use bt_dht_crawler.Dht.Id.{NodeId, IsNodeId, from_bytes}
use bt_dht_crawler.Dht.Compact.{CompactNodeInfo, encode_compact_nodes}
use bt_dht_crawler.Dht.Compact.RoundTrip.{
  IsCompact, decode_compact_nodes-encode, length-encode_compact_nodes,
}
use bt_dht_crawler.Dht.Krpc.{
  Message, implied_flag, msg_type_query, msg_type_response, query_map, response_map,
  query_find_node, encode_find_node, encode_announce_peer, encode_find_node_response,
  query_announce_peer,
}
use bt_dht_crawler.Dht.Krpc.Receive.{
  message_of, decode_message, get_query_node_id, get_info_hash, get_target, get_port, get_token,
  get_response_nodes,
}

-- Any encodable map is sent without an error, and arrives as the message of the received map.
pub decode_message-encode :
    (d : Dict)
    → IsEncodable (dict d)
    → (e : Bytes) × (encode (dict d) ≡ ok e) × (decode_message e ≡ ok (message_of (received_map d)))
decode_message-encode d h =
    let (e, sent, read) = decode_reader-encode (dict d) [] h in
    (e, sent, arrives e (rw (append-nil e) at read))
  where
    arrives :
        (e : Bytes)
        → decode_reader e ≡ ok (received (dict d), [])
        → decode_message e ≡ ok (message_of (received_map d))
    arrives e r = unfold decode_message decode_top_dict decode in rw r (unfold received in refl)

id_fits : (id : NodeId) → IsNodeId id → length id ≤ max_alloc
id_fits id h = omega (arith, h.size)

from_bytes_id : (id : NodeId) → IsNodeId id → from_bytes id ≡ ok id
unfolding from_bytes
from_bytes_id id h = rw h.size

-- The arguments of a query decide whether it can be encoded.
query-IsEncodable :
    (tid q : Bytes) (args : List (Bytes × Value))
    → length tid ≤ max_alloc
    → length q ≤ max_alloc
    → IsEncodable (dict (from_list args))
    → IsEncodable (dict (query_map tid q args))
query-IsEncodable tid q args ht hq h =
    literal-IsEncodable _
      ((omega arith, ht), ((omega arith, omega arith), ((omega arith, hq), ((omega arith, h), tt))))
      refl

response-IsEncodable :
    (tid : Bytes) (r : List (Bytes × Value))
    → length tid ≤ max_alloc
    → IsEncodable (dict (from_list r))
    → IsEncodable (dict (response_map tid r))
response-IsEncodable tid r ht h =
    literal-IsEncodable _ ((omega arith, ht), ((omega arith, omega arith), ((omega arith, h), tt)))
      refl

-- What a query is read as.
query-message :
    (tid q : Bytes) (args : List (Bytes × Value))
    → message_of (received_map (query_map tid q args)) ≡ record {
      transaction_id = tid;
      type_ = msg_type_query;
      query = q;
      args = some (received_map (from_list args));
      response = none;
      error = none;
    }
unfolding message_of from_list received lookup bytes_less get_string get_bytes get_dict get_list
query-message tid q args = refl

response-message :
    (tid : Bytes) (r : List (Bytes × Value))
    → message_of (received_map (response_map tid r)) ≡ record {
      transaction_id = tid;
      type_ = msg_type_response;
      query = [];
      args = none;
      response = some (received_map (from_list r));
      error = none;
    }
unfolding message_of from_list received lookup bytes_less get_string get_bytes get_dict get_list
response-message tid r = refl

find_node-args-IsEncodable :
    (id target : NodeId)
    → IsNodeId id
    → IsNodeId target
    → IsEncodable (dict (from_list ((codes "id", bytes id) ∷ (codes "target", bytes target) ∷ [])))
find_node-args-IsEncodable id target hi hg =
    literal-IsEncodable _ ((omega arith, id_fits id hi), ((omega arith, id_fits target hg), tt))
      refl

-- A `find_node` query is encoded, for identifiers of 20 bytes and a transaction that fits into
-- memory, and arrives with its transaction, its sender and its target.
pub find_node_arrives :
    (tid : Bytes) (id target : NodeId)
    → length tid ≤ max_alloc
    → IsNodeId id
    → IsNodeId target
    → (e : Bytes) × (m : Message) × (encode_find_node tid id target ≡ ok e)
      × (decode_message e ≡ ok m)
      × (m.transaction_id ≡ tid)
      × (m.query ≡ query_find_node)
      × (get_query_node_id m ≡ some id)
      × (get_target m ≡ some target)
unfolding encode_find_node
find_node_arrives tid id target ht hi hg =
    let args : List (Bytes × Value) =
      (codes "id", bytes id) ∷ (codes "target", bytes target) ∷ [] in
    let (e, sent, read) = decode_message-encode (query_map tid query_find_node args) (
      query-IsEncodable tid query_find_node args ht (omega arith)
        (find_node-args-IsEncodable id target hi hg)) in
    (
      e,
      record {
        transaction_id = tid;
        type_ = msg_type_query;
        query = query_find_node;
        args = some (received_map (from_list args));
        response = none;
        error = none;
      },
      sent,
      rw (query-message tid query_find_node args) at read,
      refl,
      refl,
      unfold get_query_node_id from_list received lookup bytes_less get_bytes in
          rw (from_bytes_id id hi),
      unfold get_target from_list received lookup bytes_less get_bytes in
          rw (from_bytes_id target hg),
    )

abbrev announce_args : NodeId → Bytes → ℤ → Bytes → Bool → List (Bytes × Value)
announce_args id info_hash port token implied =
    (codes "id", bytes id)
    ∷ (codes "info_hash", bytes info_hash)
    ∷ (codes "port", int port)
    ∷ (codes "token", bytes token)
    ∷ (codes "implied_port", int (implied_flag implied))
    ∷ []

implied_flag-IsInt64 : (b : Bool) → IsInt64 (implied_flag b)
implied_flag-IsInt64 true = omega arith
implied_flag-IsInt64 false = omega arith

announce_args-IsEncodable :
    (id : NodeId) (info_hash : Bytes) (port : ℤ) (token : Bytes) (implied : Bool)
    → IsNodeId id
    → IsNodeId info_hash
    → IsInt64 port
    → length token ≤ max_alloc
    → IsEncodable (dict (from_list (announce_args id info_hash port token implied)))
announce_args-IsEncodable id info_hash port token implied hi hh hp hk =
    literal-IsEncodable _
      (
        (omega arith, id_fits id hi),
        (
          (omega arith, id_fits info_hash hh),
          (
            (omega arith, hp),
            ((omega arith, hk), ((omega arith, implied_flag-IsInt64 implied), tt)),
          ),
        ),
      )
      refl

-- An `announce_peer` query is encoded, for identifiers of 20 bytes, an int64 port, and a
-- transaction and a token that fit into memory, and arrives with its sender, its info hash, its
-- token and its port; the port is withheld if the source port is to be used.
pub announce_peer_arrives :
    (tid : Bytes) (id : NodeId) (info_hash : Bytes) (port : ℤ) (token : Bytes) (implied : Bool)
    → length tid ≤ max_alloc
    → IsNodeId id
    → IsNodeId info_hash
    → IsInt64 port
    → length token ≤ max_alloc
    → (e : Bytes) × (m : Message) × (encode_announce_peer tid id info_hash port token implied
        ≡ ok e)
      × (decode_message e ≡ ok m)
      × (m.type_ ≡ msg_type_query)
      × (m.query ≡ query_announce_peer)
      × (get_query_node_id m ≡ some id)
      × (get_info_hash m ≡ some info_hash)
      × (get_token m ≡ some token)
      × (get_port m ≡ (if implied then none else some port))
unfolding encode_announce_peer
announce_peer_arrives tid id info_hash port token implied ht hi hh hp hk =
    let args : List (Bytes × Value) = announce_args id info_hash port token implied in
    let (e, sent, read) = decode_message-encode (query_map tid query_announce_peer args) (
      query-IsEncodable tid query_announce_peer args ht (omega arith)
        (announce_args-IsEncodable id info_hash port token implied hi hh hp hk)) in
    (
      e,
      record {
        transaction_id = tid;
        type_ = msg_type_query;
        query = query_announce_peer;
        args = some (received_map (from_list args));
        response = none;
        error = none;
      },
      sent,
      rw (query-message tid query_announce_peer args) at read,
      refl,
      refl,
      unfold get_query_node_id from_list received lookup bytes_less get_bytes in
          rw (from_bytes_id id hi),
      unfold get_info_hash from_list received lookup bytes_less get_bytes in rw hh.size,
      unfold get_token from_list received lookup bytes_less get_bytes in refl,
      port_arrives implied,
    )
  where
    port_arrives :
        (b : Bool)
        → get_port (record {
          transaction_id = tid;
          type_ = msg_type_query;
          query = query_announce_peer;
          args = some (received_map (from_list (announce_args id info_hash port token b)));
          response = none;
          error = none;
        })
          ≡ (if b then none else some port)
    port_arrives true = unfold get_port from_list received lookup bytes_less get_int in refl
    port_arrives false = unfold get_port from_list received lookup bytes_less get_int in refl

nodes-IsEncodable :
    (id : NodeId) (nodes : List CompactNodeInfo)
    → IsNodeId id
    → All IsCompact nodes
    → 26 * length nodes ≤ max_alloc
    → IsEncodable (
        dict (
          from_list
            ((codes "id", bytes id) ∷ (codes "nodes", bytes (encode_compact_nodes nodes)) ∷ [])))
nodes-IsEncodable id nodes hi hn fits =
    literal-IsEncodable _
      (
        (omega arith, id_fits id hi),
        ((omega arith, omega (arith, length-encode_compact_nodes nodes hn)), tt),
      )
      refl

-- A `find_node` response is encoded, for an identifier of 20 bytes, nodes with identifiers of 20
-- bytes, IPv4 addresses and ports, and texts that fit into memory, and arrives with its
-- transaction and its nodes.
pub find_node_response_arrives :
    (tid : Bytes) (id : NodeId) (nodes : List CompactNodeInfo)
    → length tid ≤ max_alloc
    → IsNodeId id
    → All IsCompact nodes
    → 26 * length nodes ≤ max_alloc
    → (e : Bytes) × (m : Message) × (encode_find_node_response tid id nodes ≡ ok e)
      × (decode_message e ≡ ok m)
      × (m.transaction_id ≡ tid)
      × (m.type_ ≡ msg_type_response)
      × (get_response_nodes m ≡ nodes)
unfolding encode_find_node_response
find_node_response_arrives tid id nodes ht hi hn fits =
    let r : List (Bytes × Value) =
      (codes "id", bytes id) ∷ (codes "nodes", bytes (encode_compact_nodes nodes)) ∷ [] in
    let (e, sent, read) =
      decode_message-encode (response_map tid r)
        (response-IsEncodable tid r ht (nodes-IsEncodable id nodes hi hn fits)) in
    (
      e,
      record {
        transaction_id = tid;
        type_ = msg_type_response;
        query = [];
        args = none;
        response = some (received_map (from_list r));
        error = none;
      },
      sent,
      rw (response-message tid r) at read,
      refl,
      refl,
      unfold get_response_nodes from_list received lookup bytes_less get_bytes in
          decode_compact_nodes-encode nodes hn,
    )
