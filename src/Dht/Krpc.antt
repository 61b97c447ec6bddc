-- ===== src/Dht/Krpc.antt =====
-- internal/dht/krpc.go: the messages, as maps that the codec writes and reads.
pub mod Receive
pub mod RoundTrip
use bt_dht_crawler.Prelude.{
  ℕ, zero, suc, ◌+◌, ◌-◌, ◌*◌, ◌^◌, ◌≤◌, ◌<◌, ◌≡◌, ◌≢◌, refl, sym, ap, ap₂, ◌∙◌, subst, Bool, true,
  false, not, ◌&&◌, ◌||◌, ◌/◌, ◌%◌, List, [], ◌∷◌, ◌++◌, append_assoc, append-nil, map, Bytes,
  codes, bytes_eq, bytes_eq→eq, eq→bytes_eq, bytes_eq_refl, Option-cases, length, length-append,
  take, drop, take-append, drop-append, All, All-append, Pairwise, Pairwise-middle, ltb, leb, ◌==◌,
  if◌then◌else◌, Outcome, ok, err, panic, Error, ◌>>=◌, Bool-cases, inl, inr, ◌⊎◌, arith, Option,
  none, some,
}
use bt_dht_crawler.Prelude.Int.{ℤ, pos, negsuc}
use bt_dht_crawler.Bt.Value.{
  Value, Items, Dict, str, bytes, int, int64, list, dict, nil, cons, from_list,
}
use bt_dht_crawler.Bt.Encode.{encode}
use bt_dht_crawler.Bt.Decode.{decode_top_dict}
use bt_dht_crawler.Bt.Access.{get_string, get_bytes, get_int, get_dict, get_list}
use bt_dht_crawler.Dht.Id.{NodeId, id_length, from_bytes, id_bytes}
use bt_dht_crawler.Dht.Compact.{
  CompactNodeInfo, CompactPeerInfo, encode_compact_nodes, decode_compact_nodes, encode_compact_peer,
  decode_compact_peer,
}

-- The message types and the query types.
abbrev pub msg_type_query : Bytes
msg_type_query = codes "q"

abbrev pub msg_type_response : Bytes
msg_type_response = codes "r"

abbrev pub msg_type_error : Bytes
msg_type_error = codes "e"

abbrev pub query_ping : Bytes
query_ping = codes "ping"

abbrev pub query_find_node : Bytes
query_find_node = codes "find_node"

abbrev pub query_get_peers : Bytes
query_get_peers = codes "get_peers"

abbrev pub query_announce_peer : Bytes
query_announce_peer = codes "announce_peer"

-- A nil map or slice is `none`.
pub record Message : Type 0 where
  pub transaction_id : Bytes
  pub type_ : Bytes
  pub query : Bytes
  pub args : Option Dict
  pub response : Option Dict
  pub error : Option Items

-- The maps of a query and of a response.
abbrev pub query_map : Bytes → Bytes → List (Bytes × Value) → Dict
query_map tid q args = from_list (
    (codes "t", bytes tid)
    ∷ (codes "y", str msg_type_query)
    ∷ (codes "q", str q)
    ∷ (codes "a", dict (from_list args))
    ∷ [])

abbrev pub response_map : Bytes → List (Bytes × Value) → Dict
response_map tid r = from_list (
    (codes "t", bytes tid)
    ∷ (codes "y", str msg_type_response)
    ∷ (codes "r", dict (from_list r))
    ∷ [])

unfoldable pub encode_ping : Bytes → NodeId → Outcome Bytes
encode_ping tid id =
    encode (dict (query_map tid query_ping ((codes "id", bytes (id_bytes id)) ∷ [])))

unfoldable pub encode_ping_response : Bytes → NodeId → Outcome Bytes
encode_ping_response tid id =
    encode (dict (response_map tid ((codes "id", bytes (id_bytes id)) ∷ [])))

unfoldable pub encode_find_node : Bytes → NodeId → NodeId → Outcome Bytes
encode_find_node tid id target = encode (
    dict (
      query_map tid query_find_node
        ((codes "id", bytes (id_bytes id)) ∷ (codes "target", bytes (id_bytes target)) ∷ [])))

unfoldable pub encode_find_node_response : Bytes → NodeId → List CompactNodeInfo → Outcome Bytes
encode_find_node_response tid id nodes = encode (
    dict (
      response_map tid (
        (codes "id", bytes (id_bytes id))
        ∷ (codes "nodes", bytes (encode_compact_nodes nodes))
        ∷ [])))

unfoldable pub encode_get_peers : Bytes → NodeId → Bytes → Outcome Bytes
encode_get_peers tid id info_hash = encode (
    dict (
      query_map tid query_get_peers
        ((codes "id", bytes (id_bytes id)) ∷ (codes "info_hash", bytes info_hash) ∷ [])))

unfoldable pub encode_get_peers_response_nodes :
    Bytes → NodeId → Bytes → List CompactNodeInfo → Outcome Bytes
encode_get_peers_response_nodes tid id token nodes = encode (
    dict (
      response_map tid (
        (codes "id", bytes (id_bytes id))
        ∷ (codes "token", bytes token)
        ∷ (codes "nodes", bytes (encode_compact_nodes nodes))
        ∷ [])))

unfoldable pub peer_list : List CompactPeerInfo → Items
peer_list [] = nil
peer_list (p ∷ ps) = cons (bytes (encode_compact_peer p)) (peer_list ps)

unfoldable pub encode_get_peers_response_peers :
    Bytes → NodeId → Bytes → List CompactPeerInfo → Outcome Bytes
encode_get_peers_response_peers tid id token peers = encode (
    dict (
      response_map tid (
        (codes "id", bytes (id_bytes id))
        ∷ (codes "token", bytes token)
        ∷ (codes "values", list (peer_list peers))
        ∷ [])))

abbrev pub implied_flag : Bool → ℤ
implied_flag b = if b then pos 1 else pos 0

unfoldable pub encode_announce_peer : Bytes → NodeId → Bytes → ℤ → Bytes → Bool → Outcome Bytes
encode_announce_peer tid id info_hash port token implied = encode (
    dict (
      query_map tid query_announce_peer (
        (codes "id", bytes (id_bytes id))
        ∷ (codes "info_hash", bytes info_hash)
        ∷ (codes "port", int port)
        ∷ (codes "token", bytes token)
        ∷ (codes "implied_port", int (implied_flag implied))
        ∷ [])))

unfoldable pub encode_announce_peer_response : Bytes → NodeId → Outcome Bytes
encode_announce_peer_response tid id =
    encode (dict (response_map tid ((codes "id", bytes (id_bytes id)) ∷ [])))

unfoldable pub encode_error : Bytes → ℤ → Bytes → Outcome Bytes
encode_error tid code message = encode (
    dict (
      from_list (
        (codes "t", bytes tid)
        ∷ (codes "y", str msg_type_error)
        ∷ (codes "e", list (cons (int64 code) (cons (str message) nil)))
        ∷ [])))
