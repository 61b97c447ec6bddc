-- ===== src/Dht/Node/Output.antt =====
-- What one incoming message makes a node send and answer: one packet at most, and answers behind the others.
use bt_dht_crawler.Prelude.{
  ℕ, ◌+◌, ◌≤◌, ◌≡◌, refl, sym, ap, ◌∙◌, Bool, true, false, List, [], ◌∷◌, ◌++◌, append_assoc,
  append-nil, Bytes, bytes_eq, Option-cases, length, length-append, ltb, if◌then◌else◌, Outcome, ok,
  err, panic, Bool-cases, inl, inr, arith, Option, none, some, Ends, Ends-bind, Ends-if, Always,
}
use bt_dht_crawler.Dht.Id.{NodeId}
use bt_dht_crawler.Dht.Compact.{CompactNodeInfo}
use bt_dht_crawler.Dht.Krpc.{
  Message, msg_type_query, msg_type_response, query_ping, query_find_node, query_get_peers,
  query_announce_peer,
}
use bt_dht_crawler.Dht.Krpc.Receive.{
  decode_message, get_query_node_id, get_info_hash, get_target, get_token, get_response_nodes,
}
use bt_dht_crawler.Dht.Token.{generate_token, validate_token}
use bt_dht_crawler.Dht.Node.{
  Node, Event, Address, send, emit, handle_ping, handle_find_node, get_peers_event, reply_get_peers,
  handle_get_peers, announce_event, accept_announce, check_announce, handle_announce_peer,
  note_node, note_sender, dispatch_query, handle_query, response_id, is_pending, answer_pending,
  note_nodes, handle_response, dispatch_message, handle_message, add_one,
}
use bt_dht_crawler.Dht.Node.Invariant.{generate_token-Ends, validate_token-Ends}

-- From `n` to `m` at most `k` packets were sent, and answers were only added behind the others.
pub record Grew (k : ℕ) (n m : Node) : Type 0 where
  pub few : length m.sent ≤ length n.sent + k
  pub answered : (more : List (Bytes × Message)) × (m.answers ≡ n.answers ++ more)

pub Grew-refl : (n : Node) → Grew 0 n n
Grew-refl n = record { few = omega arith; answered = ([], sym (append-nil n.answers)) }

pub Grew-trans : (j k l : ℕ) (n m o : Node) → j + k ≤ l → Grew j n m → Grew k m o → Grew l n o
Grew-trans j k l n m o le g h = record {
  few = omega (arith, g.few, h.few);
  answered = (
    g.answered.0 ++ h.answered.0,
    h.answered.1
        ∙ ap (λ w. w ++ h.answered.0) g.answered.1
        ∙ append_assoc n.answers g.answered.0 h.answered.0,
  );
}

pub Grew-answers : (k : ℕ) (n m : Node) → Grew k n m → length n.answers ≤ length m.answers
Grew-answers k n m g = omega (arith, ap length g.answered.1, length-append n.answers g.answered.0)

module _ (n : Node) where
  -- Nothing was sent.
  abbrev Quiet : Node → Type 0
  Quiet m = Grew 0 n m

  -- One packet at most was sent.
  abbrev Loud : Node → Type 0
  Loud m = Grew 1 n m

  send-Loud : (resp : Outcome Bytes) (addr : Address) (m : Node) → Quiet m → Loud (send resp addr m)
  unfolding send
  send-Loud resp addr m g = record {
    few = omega (arith, g.few, length-append m.sent (record { payload = _; to = addr } ∷ []));
    answered = g.answered;
  }

  Quiet-Loud : (m : Node) → Quiet m → Loud m
  Quiet-Loud m g = Grew-trans 0 0 1 n m m (omega arith) g (Grew-refl m)

  emit-Quiet : (e : Event) (m : Node) → Quiet m → Quiet (emit e m)
  unfolding emit
  emit-Quiet e m g = elim (Bool-cases (ltb (length m.event_chan) m.event_room)) [
    | inl t ↦ rw t (record { few = g.few; answered = g.answered })
    | inr t ↦ rw t g
  ]

  note_sender-Quiet :
      (now : ℕ) (id : Option NodeId) (addr : Address) (m : Node)
      → Quiet m
      → Quiet (note_sender now id addr m)
  unfolding note_sender
  note_sender-Quiet now none addr m g = g
  note_sender-Quiet now (some id) addr m g = record { few = g.few; answered = g.answered }

  pub note_nodes-Quiet :
      (now : ℕ) (cs : List CompactNodeInfo) (m : Node) → Quiet m → Quiet (note_nodes now cs m)
  unfolding note_nodes
  note_nodes-Quiet now [] m g = g
  note_nodes-Quiet now (c ∷ cs) m g =
      note_nodes-Quiet now cs (note_node now c.id c.ip c.port m)
        (record { few = g.few; answered = g.answered })

  handle_find_node-Loud :
      (msg : Message) (addr : Address) (m : Node) → Quiet m → Loud (handle_find_node msg addr m)
  unfolding handle_find_node
  handle_find_node-Loud msg addr m g = elim (Option-cases (get_target msg)) [
    | inl e ↦ rw (e, handle_find_node) (Quiet-Loud m g)
    | inr (t, e) ↦ rw (e, handle_find_node) (send-Loud _ addr m g)
  ]

  handle_get_peers-Loud :
      (msg : Message) (addr : Address) (m : Node)
      → Quiet m
      → Ends Loud (handle_get_peers msg addr m)
  unfolding handle_get_peers reply_get_peers
  handle_get_peers-Loud msg addr m g = elim (Option-cases (get_info_hash msg)) [
    | inl e ↦ rw (e, handle_get_peers) (Quiet-Loud m g)
    | inr (h, e) ↦
        rw (e, handle_get_peers)
          (reply h _ (
            emit-Quiet (get_peers_event h addr)
              (record m { get_peers_count = add_one m.get_peers_count })
              (record { few = g.few; answered = g.answered })))
  ]
    where
      reply : (h : Bytes) (o : Node) → Quiet o → Ends Loud (reply_get_peers msg h addr o)
      reply h o go =
          Ends-bind Always Loud (generate_token o.token_secret addr.ip) _
            (generate_token-Ends o.token_secret addr.ip) (λ t _. send-Loud _ addr o go)

  accept_announce-Loud :
      (msg : Message) (h : Bytes) (addr : Address) (m : Node)
      → Quiet m
      → Loud (accept_announce msg h addr m)
  unfolding accept_announce
  accept_announce-Loud msg h addr m g = send-Loud _ addr _ (
      emit-Quiet (announce_event msg h addr)
        (record m { announce_count = add_one m.announce_count })
        (record { few = g.few; answered = g.answered }))

  check_announce-Loud :
      (msg : Message) (h : Bytes) (token : Option Bytes) (addr : Address) (m : Node)
      → Quiet m
      → Ends Loud (check_announce msg h token addr m)
  unfolding check_announce
  check_announce-Loud msg h none addr m g = Quiet-Loud m g
  check_announce-Loud msg h (some token) addr m g =
      Ends-bind Always Loud (validate_token m.token_secret m.last_secret token addr.ip) _
        (validate_token-Ends m.token_secret m.last_secret token addr.ip) λ valid _. either valid
    where
      either : (b : Bool) → Loud (if b then accept_announce msg h addr m else m)
      either true = accept_announce-Loud msg h addr m g
      either false = Quiet-Loud m g

  handle_announce_peer-Loud :
      (msg : Message) (addr : Address) (m : Node)
      → Quiet m
      → Ends Loud (handle_announce_peer msg addr m)
  unfolding handle_announce_peer
  handle_announce_peer-Loud msg addr m g = elim (Option-cases (get_info_hash msg)) [
    | inl e ↦ rw (e, handle_announce_peer) (Quiet-Loud m g)
    | inr (h, e) ↦ rw (e, handle_announce_peer) (check_announce-Loud msg h (get_token msg) addr m g)
  ]

  handle_query-Loud :
      (now : ℕ) (msg : Message) (addr : Address) (m : Node)
      → Quiet m
      → Ends Loud (handle_query now msg addr m)
  unfolding handle_query dispatch_query handle_ping
  handle_query-Loud now msg addr m g =
      Ends-if _ (bytes_eq msg.query query_ping) _ _ (send-Loud _ addr o go) (
        Ends-if _ (bytes_eq msg.query query_find_node) _ _ (handle_find_node-Loud msg addr o go) (
          Ends-if _ (bytes_eq msg.query query_get_peers) _ _ (handle_get_peers-Loud msg addr o go) (
            Ends-if _ (bytes_eq msg.query query_announce_peer) _ _
              (handle_announce_peer-Loud msg addr o go) (Quiet-Loud o go))))
    where
      o : Node
      o = note_sender now (get_query_node_id msg) addr m

      go : Quiet o
      go = note_sender-Quiet now (get_query_node_id msg) addr m g

  answer_pending-Quiet : (msg : Message) (m : Node) → Quiet m → Quiet (answer_pending msg m)
  unfolding answer_pending
  answer_pending-Quiet msg m g = elim (Bool-cases (is_pending msg.transaction_id m.pending)) [
    | inl e ↦ rw e (record {
      few = g.few;
      answered = (
        g.answered.0 ++ ((msg.transaction_id, msg) ∷ []),
        ap (λ w. w ++ ((msg.transaction_id, msg) ∷ [])) g.answered.1
            ∙ append_assoc n.answers g.answered.0 ((msg.transaction_id, msg) ∷ []),
      );
    })
    | inr e ↦ rw e g
  ]

  handle_response-Quiet :
      (now : ℕ) (msg : Message) (addr : Address) (m : Node)
      → Quiet m
      → Quiet (handle_response now msg addr m)
  unfolding handle_response
  handle_response-Quiet now msg addr m g =
      note_nodes-Quiet now (get_response_nodes msg) _
        (answer_pending-Quiet msg _ (note_sender-Quiet now (response_id msg) addr m g))

  dispatch_message-Loud :
      (now : ℕ) (msg : Message) (addr : Address) (m : Node)
      → Quiet m
      → Ends Loud (dispatch_message now msg addr m)
  unfolding dispatch_message
  dispatch_message-Loud now msg addr m g =
      Ends-if _ (bytes_eq msg.type_ msg_type_query) _ _ (handle_query-Loud now msg addr m g) (
        Ends-if _ (bytes_eq msg.type_ msg_type_response) _ _
          (Quiet-Loud _ (handle_response-Quiet now msg addr m g)) (Quiet-Loud m g))

-- A message makes the node send one packet at most.
pub handle_message-Grew :
    (now : ℕ) (text : Bytes) (addr : Address) (n : Node)
    → Ends (Grew 1 n) (handle_message now text addr n)
unfolding handle_message
handle_message-Grew now text addr n = by_result (decode_message text) refl
  where
    by_result :
        (r : Outcome Message)
        → decode_message text ≡ r
        → Ends (Grew 1 n) (handle_message now text addr n)
    by_result (ok msg) e =
        rw (e, handle_message)
          (dispatch_message-Loud n now msg addr
            (record n { queries_received = add_one n.queries_received })
            (record { few = omega arith; answered = ([], sym (append-nil n.answers)) }))
    by_result (err x) e = rw (e, handle_message) (Quiet-Loud n n (Grew-refl n))
    by_result panic e = rw (e, handle_message) tt
