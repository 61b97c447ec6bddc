-- ===== src/Tests/Messages.antt =====
-- Messages and the handlers at concrete inputs.
use bt_dht_crawler.Prelude.{
  ◌≡◌, refl, true, false, [], ◌∷◌, ◌++◌, Bytes, codes, ok, panic, arith, some,
}
use bt_dht_crawler.Prelude.{Ends}
use bt_dht_crawler.Prelude.Int.{pos}
use bt_dht_crawler.Dht.Compact.{copy_into}
use bt_dht_crawler.Dht.Krpc.{
  Message, encode_announce_peer, encode_find_node, encode_find_node_response, msg_type_query,
  msg_type_response, query_announce_peer, query_find_node,
}
use bt_dht_crawler.Dht.Krpc.Receive.{
  decode_message, get_query_node_id, get_info_hash, get_token, get_port, get_target,
  get_response_nodes,
}
use bt_dht_crawler.Dht.Krpc.RoundTrip.{
  announce_peer_arrives, find_node_arrives, find_node_response_arrives,
}
use bt_dht_crawler.Dht.Token.{generate_token, mask_secret, validate_token}
use bt_dht_crawler.Dht.Token.Laws.{validate_token-generate, validate_token_empty}
use bt_dht_crawler.Dht.Node.{Node, announce, handle_message, add_one}
use bt_dht_crawler.Dht.Node.Announce.{announce_accepted, long_token_panics}
use bt_dht_crawler.Dht.Node.Invariant.{IsGoodNode, handle_message-IsGood}
use bt_dht_crawler.Tests.Samples.{
  running-IsGoodNode, id_a, id_b, id_a-IsNodeId, id_b-IsNodeId, ip_a, ip_a_given, addr_a, node_a,
  node_a-IsCompact, running, token_a, long_token,
}

token_of_ip : generate_token (1 ∷ 2 ∷ 3 ∷ 4 ∷ []) ip_a ≡ ok token_a
unfolding generate_token mask_secret copy_into
token_of_ip = refl

announce_peer_arrives_example :
    (e : Bytes) × (m : Message) × (encode_announce_peer
        (codes "aa")
        id_a
        id_b
        (pos 6881)
        token_a
        false
      ≡ ok e)
    × (decode_message e ≡ ok m)
    × (m.type_ ≡ msg_type_query)
    × (m.query ≡ query_announce_peer)
    × (get_query_node_id m ≡ some id_a)
    × (get_info_hash m ≡ some id_b)
    × (get_token m ≡ some token_a)
    × (get_port m ≡ some (pos 6881))
announce_peer_arrives_example =
    announce_peer_arrives (codes "aa") id_a id_b (pos 6881) token_a false (omega arith)
      id_a-IsNodeId id_b-IsNodeId (omega arith) (omega arith)

find_node_arrives_example :
    (e : Bytes) × (m : Message) × (encode_find_node (codes "ab") id_a id_b ≡ ok e)
    × (decode_message e ≡ ok m)
    × (m.transaction_id ≡ codes "ab")
    × (m.query ≡ query_find_node)
    × (get_query_node_id m ≡ some id_a)
    × (get_target m ≡ some id_b)
find_node_arrives_example =
    find_node_arrives (codes "ab") id_a id_b (omega arith) id_a-IsNodeId id_b-IsNodeId

find_node_response_arrives_example :
    (e : Bytes) × (m : Message) × (encode_find_node_response (codes "ab") id_b (node_a ∷ []) ≡ ok e)
    × (decode_message e ≡ ok m)
    × (m.transaction_id ≡ codes "ab")
    × (m.type_ ≡ msg_type_response)
    × (get_response_nodes m ≡ node_a ∷ [])
find_node_response_arrives_example =
    find_node_response_arrives (codes "ab") id_b (node_a ∷ []) (omega arith) id_b-IsNodeId
      (node_a-IsCompact, tt) (omega arith)

validate_token-generate_example :
    (validate_token (1 ∷ 2 ∷ 3 ∷ 4 ∷ []) (5 ∷ []) token_a ip_a ≡ ok true)
    × (validate_token (9 ∷ 9 ∷ 9 ∷ 9 ∷ []) (1 ∷ 2 ∷ 3 ∷ 4 ∷ []) token_a ip_a ≡ ok true)
validate_token-generate_example =
    validate_token-generate (1 ∷ 2 ∷ 3 ∷ 4 ∷ []) (9 ∷ 9 ∷ 9 ∷ 9 ∷ []) (5 ∷ []) ip_a token_a
      ip_a_given refl token_of_ip

validate_token_empty_example : validate_token (1 ∷ 2 ∷ []) (5 ∷ 6 ∷ []) [] ip_a ≡ ok true
validate_token_empty_example = validate_token_empty (1 ∷ 2 ∷ []) (5 ∷ 6 ∷ []) ip_a ip_a_given

announce_accepted_example :
    (text : Bytes) × (after : Node) × (encode_announce_peer
        (codes "aa")
        id_a
        id_b
        (pos 51413)
        token_a
        false
      ≡ ok text)
    × (handle_message 200 text addr_a running ≡ ok after)
    × (after.event_chan
        ≡ []
          ++ (record { type_ = announce; info_hash = id_b; peer_ip = ip_a; peer_port = pos 51413 }
              ∷ []))
    × (after.announce_count ≡ add_one 0)
announce_accepted_example =
    announce_accepted 200 addr_a running (codes "aa") id_a id_b token_a (pos 51413) false
      (omega arith) id_a-IsNodeId id_b-IsNodeId (omega arith) (omega arith) ip_a_given token_of_ip
      (omega arith)

long_token_panics_example :
    (text : Bytes) × (encode_announce_peer (codes "aa") id_a id_b (pos 1) long_token true ≡ ok text)
    × (handle_message 200 text addr_a running ≡ panic)
long_token_panics_example =
    long_token_panics 200 addr_a running (codes "aa") id_a id_b long_token (pos 1) true
      (omega arith) id_a-IsNodeId id_b-IsNodeId (omega arith) (omega arith) ip_a_given (omega arith)

handle_message-IsGood_example :
    Ends IsGoodNode (handle_message 200 (codes "d1:q4:ping1:t2:aa1:y1:qe") addr_a running)
handle_message-IsGood_example =
    handle_message-IsGood 200 (codes "d1:q4:ping1:t2:aa1:y1:qe") addr_a running running-IsGoodNode
