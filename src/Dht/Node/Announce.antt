-- ===== src/Dht/Node/Announce.antt =====
-- An `announce_peer` query, from its bytes to the event or to the end of the process.
use bt_dht_crawler.Prelude.{
  ℕ, ◌≤◌, ◌<◌, ◌≡◌, ◌≢◌, refl, ap, ◌∙◌, Bool, true, false, [], ◌∷◌, ◌++◌, Bytes, bytes_eq, length,
  if◌then◌else◌, ok, panic, arith, none, some,
}
use bt_dht_crawler.Prelude.Int.{ℤ, IsInt64}
use bt_dht_crawler.Bt.Decode.{max_alloc}
use bt_dht_crawler.Dht.Id.{NodeId, IsNodeId}
use bt_dht_crawler.Dht.Krpc.{
  Message, msg_type_query, query_ping, query_find_node, query_get_peers, query_announce_peer,
  encode_announce_peer,
}
use bt_dht_crawler.Dht.Krpc.Receive.{decode_message, get_query_node_id, get_info_hash, get_token}
use bt_dht_crawler.Dht.Krpc.RoundTrip.{announce_peer_arrives}
use bt_dht_crawler.Dht.Token.{generate_token}
use bt_dht_crawler.Dht.Token.Laws.{validate_token_long, validate_token-generate}
use bt_dht_crawler.Dht.Node.{
  Node, Address, announce, emit, send, note_sender, port_or_source, announce_event, accept_announce,
  check_announce, handle_announce_peer, dispatch_query, handle_query, dispatch_message,
  handle_message, add_one, note_node,
}

step_decode :
    (now : ℕ) (text : Bytes) (msg : Message) (addr : Address) (n : Node)
    → decode_message text ≡ ok msg
    → handle_message now text addr n
      ≡ dispatch_message now msg addr (record n { queries_received = add_one n.queries_received })
unfolding handle_message
step_decode now text msg addr n d = rw (d, handle_message)

step_type :
    (now : ℕ) (msg : Message) (addr : Address) (n : Node)
    → msg.type_ ≡ msg_type_query
    → dispatch_message now msg addr n ≡ handle_query now msg addr n
unfolding dispatch_message
step_type now msg addr n t =
    let e : bytes_eq msg.type_ msg_type_query ≡ true = ap (λ x. bytes_eq x msg_type_query) t in rw e

step_query :
    (msg : Message) (addr : Address) (n : Node)
    → msg.query ≡ query_announce_peer
    → dispatch_query msg addr n ≡ handle_announce_peer msg addr n
unfolding dispatch_query
step_query msg addr n q =
    let no_ping : bytes_eq msg.query query_ping ≡ false = ap (λ x. bytes_eq x query_ping) q in
    let no_find : bytes_eq msg.query query_find_node ≡ false =
      ap (λ x. bytes_eq x query_find_node) q in
    let no_get : bytes_eq msg.query query_get_peers ≡ false =
      ap (λ x. bytes_eq x query_get_peers) q in
    let is_announce : bytes_eq msg.query query_announce_peer ≡ true =
      ap (λ x. bytes_eq x query_announce_peer) q in
    rw (no_ping, no_find, no_get, is_announce)

step_announce :
    (msg : Message) (addr : Address) (n : Node) (h token : Bytes)
    → get_info_hash msg ≡ some h
    → get_token msg ≡ some token
    → handle_announce_peer msg addr n ≡ check_announce msg h (some token) addr n
unfolding handle_announce_peer
step_announce msg addr n h token ih tk = rw (ih, handle_announce_peer, tk)

-- The node when it comes to check a token: the message is counted, the sender noted.
abbrev pub noted : ℕ → NodeId → Address → Node → Node
noted now id addr n =
    note_node now id addr.ip addr.port (record n { queries_received = add_one n.queries_received })

-- The query reaches the check of its token.
announce-reaches-check :
    (now : ℕ) (text : Bytes) (msg : Message) (addr : Address) (n : Node) (id : NodeId)
    (h token : Bytes)
    → decode_message text ≡ ok msg
    → msg.type_ ≡ msg_type_query
    → msg.query ≡ query_announce_peer
    → get_query_node_id msg ≡ some id
    → get_info_hash msg ≡ some h
    → get_token msg ≡ some token
    → handle_message now text addr n ≡ check_announce msg h (some token) addr (noted now id addr n)
unfolding handle_query
announce-reaches-check now text msg addr n id h token d t q i ih tk =
    let counted = record n { queries_received = add_one n.queries_received } in
    step_decode now text msg addr n d
    ∙ step_type now msg addr counted t
    ∙ step_query msg addr (note_sender now (get_query_node_id msg) addr counted) q
    ∙ step_announce msg addr (note_sender now (get_query_node_id msg) addr counted) h token ih tk
    ∙ ap (λ o. check_announce msg h (some token) addr (note_sender now o addr counted)) i
    ∙ unfold note_sender in refl

-- An `announce_peer` query encoded with identifiers of 20 bytes, an int64 port, and a token of
-- more than eight bytes that fits into memory panics the node that receives it from a nonempty
-- address, whatever its state.
pub long_token_panics :
    (now : ℕ) (addr : Address) (n : Node) (tid id info_hash token : Bytes) (port : ℤ)
    (implied : Bool)
    → length tid ≤ max_alloc
    → IsNodeId id
    → IsNodeId info_hash
    → IsInt64 port
    → length token ≤ max_alloc
    → addr.ip ≢ []
    → 8 < length token
    → (text : Bytes) × (encode_announce_peer tid id info_hash port token implied ≡ ok text)
      × (handle_message now text addr n ≡ panic)
long_token_panics now addr n tid id info_hash token port implied ht hi hh hp hk hip long =
    let (text, msg, sent, read, t, q, i, ih, tk, pt) =
      announce_peer_arrives tid id info_hash port token implied ht hi hh hp hk in
    (
      text,
      sent,
      announce-reaches-check now text msg addr n id info_hash token read t q i ih tk
          ∙ unfold check_announce in
            rw (validate_token_long n.token_secret n.last_secret token addr.ip hip long),
    )

-- Let the identifiers have 20 bytes, the transaction and the token fit into memory, the port be an
-- int64, and the event channel have room. Then an `announce_peer` query with a token that the node
-- made with its current secret for the sender's nonempty address is counted and passed on as an
-- event with the port that the query names, or the source port.
pub announce_accepted :
    (now : ℕ) (addr : Address) (n : Node) (tid id info_hash token : Bytes) (port : ℤ)
    (implied : Bool)
    → length tid ≤ max_alloc
    → IsNodeId id
    → IsNodeId info_hash
    → IsInt64 port
    → length token ≤ max_alloc
    → addr.ip ≢ []
    → generate_token n.token_secret addr.ip ≡ ok token
    → length n.event_chan < n.event_room
    → (text : Bytes) × (after : Node) × (encode_announce_peer tid id info_hash port token implied
        ≡ ok text)
      × (handle_message now text addr n ≡ ok after)
      × (after.event_chan
          ≡ n.event_chan
            ++ (record {
              type_ = announce;
              info_hash = info_hash;
              peer_ip = addr.ip;
              peer_port = port_or_source (if implied then none else some port) addr;
            }
                ∷ []))
      × (after.announce_count ≡ add_one n.announce_count)
announce_accepted now addr n tid id info_hash token port implied ht hi hh hp hk hip g room =
    let (text, msg, sent, read, t, q, i, ih, tk, pt) =
      announce_peer_arrives tid id info_hash port token implied ht hi hh hp hk in
    (
      text,
      accept_announce msg info_hash addr (noted now id addr n),
      sent,
      announce-reaches-check now text msg addr n id info_hash token read t q i ih tk
          ∙ unfold check_announce in
            rw (
              (validate_token-generate n.token_secret n.token_secret n.last_secret addr.ip token hip
                refl g).0),
      rw (← pt) (events msg),
      counts msg,
    )
  where
    events :
        (msg : Message)
        → (accept_announce msg info_hash addr (noted now id addr n)).event_chan
          ≡ n.event_chan ++ (announce_event msg info_hash addr ∷ [])
    events msg = unfold accept_announce send emit in ground arith

    counts :
        (msg : Message)
        → (accept_announce msg info_hash addr (noted now id addr n)).announce_count
          ≡ add_one n.announce_count
    counts msg = unfold accept_announce send emit in ground arith
