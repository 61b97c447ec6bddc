-- ===== src/Dht/Search/Bound.antt =====
-- A search: what it keeps, how many packets are sent meanwhile, and where its peers come from.
use bt_dht_crawler.Prelude.{
  ℕ, zero, suc, ◌+◌, ◌≤◌, sym, ap, subst, List, [], ◌∷◌, append-nil, Bytes, length, length-append,
  drop, All, All-append, Outcome, ok, err, panic, Error, Ends, Ends-bind, Ends-mono, Bool-cases,
  inl, inr, ◌⊎◌, arith,
}
use bt_dht_crawler.Prelude.Elements.{IsIn, All-mono, All-IsIn, List-cases}
use bt_dht_crawler.Dht.Id.{NodeId, hex}
use bt_dht_crawler.Dht.Routing.{RoutingNode, bucket_size, find_closest}
use bt_dht_crawler.Dht.Routing.Closest.{length-find_closest}
use bt_dht_crawler.Dht.Compact.{CompactPeerInfo}
use bt_dht_crawler.Dht.Krpc.{Message}
use bt_dht_crawler.Dht.Krpc.Receive.{get_response_peers}
use bt_dht_crawler.Dht.Node.{note_nodes, is_pending, handle_message, send}
use bt_dht_crawler.Dht.Node.Invariant.{IsGoodNode, handle_message-IsGood, note_nodes-IsGood}
use bt_dht_crawler.Dht.Active.{Active, Arrival, target_of, handle_all, ask, next_txn_id}
use bt_dht_crawler.Dht.Node.Output.{
  Grew, Grew-refl, Grew-trans, Grew-answers, note_nodes-Quiet, handle_message-Grew,
}
use bt_dht_crawler.Dht.Search.{
  Round, Wait, await, start_query, start_round, peers_in, nodes_in, settle_round, asked_round,
  search_rounds, find_peers,
}

Ends-both :
    {A : Type 0} (P Q : A → Type 0) (m : Outcome A) → Ends P m → Ends Q m → Ends (λ a. P a × Q a) m
Ends-both P Q (ok a) h k = (h, k)
Ends-both P Q (err Error.out_of_fuel) h k = h
Ends-both P Q (err _) h k = tt
Ends-both P Q panic h k = tt

-- The node is in order, and sent so many packets at most.
record Kept (k : ℕ) (a b : Active) : Type 0 where
  good : IsGoodNode b.node
  grew : Grew k a.node b.node

handle_all-Kept :
    (ps : List Arrival) (a : Active)
    → IsGoodNode a.node
    → Ends (Kept (length ps) a) (handle_all ps a)
unfolding handle_all
handle_all-Kept [] a g = record { good = g; grew = Grew-refl a.node }
handle_all-Kept (p ∷ ps) a g =
    Ends-bind (λ n. IsGoodNode n × Grew 1 a.node n) _ (handle_message p.at p.payload p.from a.node)
      _
      (Ends-both _ _ (handle_message p.at p.payload p.from a.node)
        (handle_message-IsGood p.at p.payload p.from a.node g)
        (handle_message-Grew p.at p.payload p.from a.node))
      λ n k.
        Ends-mono (Kept (length ps) (record a { node = n })) (Kept (suc (length ps)) a)
          (handle_all ps (record a { node = n }))
          (λ b r. record {
            good = r.good;
            grew = Grew-trans 1 (length ps) _ a.node n b.node (omega arith) k.1 r.grew;
          })
          (handle_all-Kept ps (record a { node = n }) k.0)

-- A goroutine sends one packet.
start_query-Kept :
    (info_hash : Bytes) (r : RoutingNode) (s : Round)
    → IsGoodNode s.active.node
    → Kept 1 s.active (start_query info_hash r s).active
unfolding start_query ask await next_txn_id send
start_query-Kept info_hash r s g = record {
  good = record { table_valid = g.table_valid; events_fit = g.events_fit };
  grew = record {
    few = omega (arith, length-append s.active.node.sent (record { payload = _; to = _ } ∷ []));
    answered = ([], sym (append-nil s.active.node.answers));
  };
}

start_round-Kept :
    (info_hash : Bytes) (rs : List RoutingNode) (s : Round)
    → IsGoodNode s.active.node
    → Kept (length rs) s.active (start_round info_hash rs s).active
unfolding start_round
start_round-Kept info_hash [] s g = record { good = g; grew = Grew-refl s.active.node }
start_round-Kept info_hash (r ∷ rs) s g = elim (Bool-cases (is_pending (hex r.id) s.queried)) [
  | inl e ↦
      let k = start_round-Kept info_hash rs s g in
      rw e (record {
        good = k.good;
        grew = Grew-trans (length rs) 0 _ s.active.node _ _ (omega arith) k.grew (Grew-refl _);
      })
  | inr e ↦
      let k = start_query-Kept info_hash r s g in
      let l = start_round-Kept info_hash rs (start_query info_hash r s) k.good in
      rw e (record {
        good = l.good;
        grew =
            Grew-trans 1 (length rs) _ s.active.node (start_query info_hash r s).active.node _
              (omega arith) k.grew l.grew;
      })
]

-- One of the answers holds the peer, as an element of its list of peers.
abbrev pub IsOffered : List (Bytes × Message) → CompactPeerInfo → Type 0
IsOffered [] p = ⊥
IsOffered ((tid, msg) ∷ answers) p = IsIn p (get_response_peers msg) ⊎ IsOffered answers p

peers_in-IsOffered :
    (tids : List Bytes) (answers : List (Bytes × Message))
    → All (IsOffered answers) (peers_in tids answers)
unfolding peers_in
peers_in-IsOffered tids [] = tt
peers_in-IsOffered tids ((tid, msg) ∷ answers) =
    let later =
      All-mono (IsOffered answers) (IsOffered ((tid, msg) ∷ answers)) (peers_in tids answers)
        (λ p m. inr m) (peers_in-IsOffered tids answers) in
    elim (Bool-cases (is_pending tid tids)) [
      | inl e ↦ rw e (
          All-append (IsOffered ((tid, msg) ∷ answers)) (get_response_peers msg)
            (peers_in tids answers)
            (All-mono (λ p. IsIn p (get_response_peers msg)) (IsOffered ((tid, msg) ∷ answers))
              (get_response_peers msg) (λ p m. inl m) (All-IsIn (get_response_peers msg)))
            later)
      | inr e ↦ rw e later
    ]

-- What is offered behind a place is offered behind an earlier one.
drop-IsOffered :
    (m n : ℕ) (answers : List (Bytes × Message)) (p : CompactPeerInfo)
    → m ≤ n
    → IsOffered (drop n answers) p
    → IsOffered (drop m answers) p
drop-IsOffered zero zero answers p le o = o
drop-IsOffered zero (suc n) [] p le o = o
drop-IsOffered zero (suc n) (x ∷ answers) p le o =
    inr (drop-IsOffered zero n answers p (omega arith) o)
drop-IsOffered (suc m) zero answers p le o = absurd (omega arith)
drop-IsOffered (suc m) (suc n) [] p le o = o
drop-IsOffered (suc m) (suc n) (x ∷ answers) p le o = drop-IsOffered m n answers p (omega arith) o

-- What a search leaves behind: the node in order, with at most `n` packets sent and answers only added behind those
-- that were there; and each of the peers stands in one of the answers that were added.
pub record Searched (n : ℕ) (a : Active) (peers : List CompactPeerInfo) (b : Active) : Type 0 where
  pub good : IsGoodNode b.node
  pub grew : Grew n a.node b.node
  pub offered : All (IsOffered (drop (length a.node.answers) b.node.answers)) peers

-- From a later state of the node on.
Searched-later :
    (j k l : ℕ) (a b c : Active) (peers : List CompactPeerInfo)
    → j + k ≤ l
    → Grew j a.node b.node
    → Searched k b peers c
    → Searched l a peers c
Searched-later j k l a b c peers le g q = record {
  good = q.good;
  grew = Grew-trans j k l a.node b.node c.node le g q.grew;
  offered =
      All-mono (IsOffered (drop (length b.node.answers) c.node.answers))
        (IsOffered (drop (length a.node.answers) c.node.answers)) peers
        (λ p o.
          drop-IsOffered (length a.node.answers) (length b.node.answers) c.node.answers p
            (Grew-answers j a.node b.node g) o)
        q.offered;
}

few_closest :
    (target : NodeId) (a : Active) → length (find_closest target bucket_size a.node.table) ≤ 8
few_closest target a = omega (arith, length-find_closest target bucket_size a.node.table)

-- The rest of a round, from a state within the bounds.
settle_round-Searched :
    (j n total : ℕ) (a : Active) (next : Active → Outcome (List CompactPeerInfo × Active))
    (until : ℕ) (tids : List Bytes) (b : Active)
    → j + n ≤ total
    → Kept j a b
    → ((b' : Active) → IsGoodNode b'.node → Ends (λ r. Searched n b' r.0 r.1) (next b'))
    → Ends
        (λ r. Searched total a r.0 r.1)
        (settle_round next until tids (drop (length a.node.answers) b.node.answers) b)
unfolding settle_round
settle_round-Searched j n total a next until tids b le kept later =
    elim (List-cases (peers_in tids answers)) [
      | inl e ↦
          rw (settle_round, e)
            (Ends-mono (λ r. Searched n b' r.0 r.1) _ (next b')
              (λ r q.
                Searched-later j n total a b' r.1 r.0 le
                  (Grew-trans j 0 j a.node b.node b'.node (omega arith) kept.grew (
                    note_nodes-Quiet b.node until (nodes_in tids answers) b.node
                      (Grew-refl b.node)))
                  q)
              (later b' (note_nodes-IsGood until (nodes_in tids answers) b.node kept.good)))
      | inr (p, ps, e) ↦
          rw (settle_round, e)
            (record {
              good = kept.good;
              grew =
                  Grew-trans j 0 total a.node b.node b.node (omega arith) kept.grew
                    (Grew-refl b.node);
              offered = subst (All (IsOffered answers)) e (peers_in-IsOffered tids answers);
            })
    ]
  where
    answers : List (Bytes × Message)
    answers = drop (length a.node.answers) b.node.answers

    b' : Active
    b' = record b { node = note_nodes until (nodes_in tids answers) b.node }

-- Eight packets for each round, and one for each packet that arrives.
abbrev pub packets : List Wait → ℕ
packets [] = 0
packets (w ∷ ws) = 8 + length w.arrivals + packets ws

search_rounds-Searched :
    (ws : List Wait) (info_hash : Bytes) (queried : List Bytes) (a : Active)
    → IsGoodNode a.node
    → Ends (λ r. Searched (packets ws) a r.0 r.1) (search_rounds ws info_hash queried a)
unfolding search_rounds
search_rounds-Searched [] info_hash queried a g = record {
  good = g;
  grew = Grew-refl a.node;
  offered = tt;
}
search_rounds-Searched (w ∷ ws) info_hash queried a g =
    elim (List-cases (find_closest (target_of info_hash) bucket_size a.node.table)) [
      | inl e ↦
          rw (search_rounds, e)
            (record {
              good = g;
              grew =
                  Grew-trans 0 0 _ a.node a.node a.node (omega arith) (Grew-refl a.node)
                    (Grew-refl a.node);
              offered = tt;
            })
      | inr (r, rs, e) ↦
          let s : Round = asked_round info_hash (r ∷ rs) queried a in
          let k =
            start_round-Kept info_hash (r ∷ rs)
              (record { active = a; queried = queried; tids = [] }) g in
          rw (search_rounds, e)
            (Ends-bind (Kept (length w.arrivals) s.active) _ (handle_all w.arrivals s.active) _
              (handle_all-Kept w.arrivals s.active k.good)
              λ b h.
                settle_round-Searched (8 + length w.arrivals) (packets ws) (packets (w ∷ ws)) a
                  (search_rounds ws info_hash s.queried) w.until s.tids b (omega arith)
                  (record {
                    good = h.good;
                    grew =
                        Grew-trans (length (r ∷ rs)) (length w.arrivals) _ a.node s.active.node
                          b.node (omega (arith, ap length e, few_closest (target_of info_hash) a))
                          k.grew h.grew;
                  })
                  (λ b' g'. search_rounds-Searched ws info_hash s.queried b' g'))
    ]

-- Whatever packets arrive while a search waits, at a node with a well-formed table: the search ends, in a panic or
-- with the node in order. Then the node sent at most 24 packets besides one for each packet that arrived, kept its
-- log of answers as the head of the new one, and each peer that the search returns stands in a response which the
-- node handed to a waiting transaction since the search began.
pub find_peers-Searched :
    (first second third : Wait) (info_hash : Bytes) (a : Active)
    → IsGoodNode a.node
    → Ends
        (λ r.
          Searched
            (24 + (length first.arrivals + length second.arrivals + length third.arrivals))
            a
            r.0
            r.1)
        (find_peers first second third info_hash a)
unfolding find_peers
find_peers-Searched first second third info_hash a g =
    Ends-mono (λ r. Searched (packets (first ∷ second ∷ third ∷ [])) a r.0 r.1) _
      (search_rounds (first ∷ second ∷ third ∷ []) info_hash [] a)
      (λ r q.
        Searched-later 0 (packets (first ∷ second ∷ third ∷ [])) _ a a r.1 r.0 (omega arith)
          (Grew-refl a.node) q)
      (search_rounds-Searched (first ∷ second ∷ third ∷ []) info_hash [] a g)
