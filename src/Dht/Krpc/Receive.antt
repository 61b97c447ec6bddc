-- ===== src/Dht/Krpc/Receive.antt =====
-- internal/dht/krpc.go: `DecodeMessage` and what its users take out of a message.
use bt_dht_crawler.Prelude.{
  Bool, false, List, [], ◌∷◌, Bytes, codes, bytes_eq, length, ◌==◌, if◌then◌else◌, Outcome, ok, err,
  panic, ◌>>=◌, Option, none, some,
}
use bt_dht_crawler.Prelude.Int.{ℤ, pos, negsuc}
use bt_dht_crawler.Bt.Value.{Value, Items, Dict, bytes, nil, cons}
use bt_dht_crawler.Bt.Decode.{decode_top_dict}
use bt_dht_crawler.Bt.Access.{get_string, get_bytes, get_int, get_dict, get_list}
use bt_dht_crawler.Dht.Id.{NodeId, from_bytes}
use bt_dht_crawler.Dht.Compact.{
  CompactNodeInfo, CompactPeerInfo, decode_compact_nodes, decode_compact_peer,
}
use bt_dht_crawler.Dht.Krpc.{Message, msg_type_query, msg_type_response, msg_type_error}

abbrev or_empty : Option Bytes → Bytes
or_empty none = []
or_empty (some b) = b

-- The fields that stay at their zero value.
abbrev blank : Bytes → Bytes → Message
blank tid y = record {
  transaction_id = tid;
  type_ = y;
  query = [];
  args = none;
  response = none;
  error = none;
}

-- What `DecodeMessage` makes of the top dictionary.
unfoldable pub message_of : Dict → Message
unfolding get_string get_bytes get_dict get_list
message_of d =
    let tid = or_empty (get_bytes d (codes "t")) in
    let y = or_empty (get_string d (codes "y")) in
    if bytes_eq y msg_type_query
    then record (blank tid y) {
      query = or_empty (get_string d (codes "q"));
      args = get_dict d (codes "a");
    }
    else if bytes_eq y msg_type_response
    then record (blank tid y) { response = get_dict d (codes "r") }
    else if bytes_eq y msg_type_error
    then record (blank tid y) { error = get_list d (codes "e") }
    else blank tid y

unfoldable pub decode_message : Bytes → Outcome Message
unfolding message_of
decode_message bs = decode_top_dict bs >>= λ d. ok (message_of d)

infixl 5 ◌>>?◌
abbrev ◌>>?◌ : {A B : Type 0} → Option A → (A → Option B) → Option B
none >>? f = none
some a >>? f = f a

abbrev as_option : Outcome NodeId → Option NodeId
as_option (ok id) = some id
as_option (err e) = none
as_option panic = none

unfoldable pub get_query_node_id : Message → Option NodeId
unfolding get_bytes from_bytes
get_query_node_id m = m.args >>? λ a. get_bytes a (codes "id") >>? λ b. as_option (from_bytes b)

abbrev exactly_20 : Bytes → Option Bytes
exactly_20 b = if length b == 20 then some b else none

unfoldable pub get_info_hash : Message → Option Bytes
unfolding get_bytes
get_info_hash m = m.args >>? λ a. get_bytes a (codes "info_hash") >>? exactly_20

unfoldable pub get_target : Message → Option NodeId
unfolding get_bytes from_bytes
get_target m = m.args >>? λ a. get_bytes a (codes "target") >>? λ b. as_option (from_bytes b)

abbrev is_one : Option ℤ → Bool
is_one none = false
is_one (some (pos n)) = n == 1
is_one (some (negsuc n)) = false

-- `none` with `implied_port` 1: the source port is to be used.
unfoldable pub get_port : Message → Option ℤ
unfolding get_int
get_port m = m.args >>? λ a.
    if is_one (get_int a (codes "implied_port")) then none else get_int a (codes "port")

unfoldable pub get_token : Message → Option Bytes
unfolding get_bytes
get_token m = m.args >>? λ a. get_bytes a (codes "token")

unfoldable pub get_response_nodes : Message → List CompactNodeInfo
unfolding get_bytes
get_response_nodes m = elim (m.response >>? λ r. get_bytes r (codes "nodes")) [
  | none ↦ []
  | some b ↦ decode_compact_nodes b
]

abbrev peer_of : Value → Option CompactPeerInfo
peer_of (bytes b) = decode_compact_peer b
peer_of _ = none

abbrev push_peer : Option CompactPeerInfo → List CompactPeerInfo → List CompactPeerInfo
push_peer none ps = ps
push_peer (some p) ps = p ∷ ps

-- The loop over the values; what is no compact peer is skipped.
unfoldable pub peers_of : Items → List CompactPeerInfo
peers_of nil = []
peers_of (cons v vs) = push_peer (peer_of v) (peers_of vs)

unfoldable pub get_response_peers : Message → List CompactPeerInfo
unfolding get_list peers_of
get_response_peers m = elim (m.response >>? λ r. get_list r (codes "values")) [
  | none ↦ []
  | some vs ↦ peers_of vs
]

unfoldable pub get_response_token : Message → Option Bytes
unfolding get_bytes
get_response_token m = m.response >>? λ r. get_bytes r (codes "token")
