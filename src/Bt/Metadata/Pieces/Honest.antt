-- ===== src/Bt/Metadata/Pieces/Honest.antt =====
-- A peer that has the metadata.
use bt_dht_crawler.Prelude.{
  ℕ, zero, suc, ◌^◌, ◌≤◌, ◌<◌, ◌≡◌, refl, ap, ◌∙◌, true, false, List, [], ◌∷◌, ◌++◌, append_assoc,
  map, Bytes, length, length-append, All, ltb, not_ltb→le, le→not_ltb, ok, ◌>>=◌, Bool-cases, inl,
  inr, ◌⊎◌, arith, none,
}
use bt_dht_crawler.Prelude.Int.{pos}
use bt_dht_crawler.Prelude.Lists.{get_or, length-map}
use bt_dht_crawler.Bt.Decode.{max_alloc}
use bt_dht_crawler.Bt.Metadata.Wire.{Conn, read_message, wanted}
use bt_dht_crawler.Bt.Metadata.Wire.Frames.{
  Message, text_of, frame_of, IsSendable, traffic, read_message-text_of, length-traffic,
}
use bt_dht_crawler.Bt.Metadata.Pieces.{
  num_pieces, Collected, store_piece, accept, receive_loop, nothing_yet, download_metadata,
}
use bt_dht_crawler.Bt.Metadata.Pieces.Copy.{slice}
use bt_dht_crawler.Bt.Metadata.Pieces.Store.{
  IsPartOf, store_piece-IsPartOf, store_piece-received, IsPartOf-whole, IsPartOf-counted,
  nothing_yet-IsPartOf,
}
use bt_dht_crawler.Bt.Metadata.Pieces.Served.{piece_message, accept_piece, accept_unrelated}
use bt_dht_crawler.Bt.Metadata.Pieces.Requests.{request_all-sent}

-- What the peer sends: a piece, or some message that is none.
pub data Sent : Type 0 where
  piece : ℕ → Sent
  unrelated : Message → Sent

abbrev pub message_of : ℕ → Bytes → Sent → Message
message_of id info (piece i) = piece_message id info i
message_of id info (unrelated m) = m

-- Its messages are below the size limit, and the unrelated ones do not have the identifier of the pieces.
abbrev pub IsFrom : ℕ → Bytes → Sent → Type 0
IsFrom id info (piece i) = (i < num_pieces (length info)) × IsSendable (piece_message id info i)
IsFrom id info (unrelated m) = (wanted (pos id) (frame_of m) ≡ none) × IsSendable m

abbrev pub HasPiece : ℕ → List Sent → Type 0
HasPiece j [] = ⊥
HasPiece j (piece i ∷ ss) = (i ≡ j) ⊎ HasPiece j ss
HasPiece j (unrelated m ∷ ss) = HasPiece j ss

-- Each piece is there, or still to come.
abbrev IsCovered : Bytes → Collected → List Sent → Type 0
IsCovered info s ss =
    (j : ℕ) → j < num_pieces (length info) → (get_or s.received j false ≡ true) ⊎ HasPiece j ss

IsCovered-next :
    (info : Bytes) (i : ℕ) (s : Collected) (ss : List Sent)
    → i < num_pieces (length info)
    → IsPartOf info s
    → IsCovered info s (piece i ∷ ss)
    → IsCovered info (store_piece (num_pieces (length info)) (pos i) (slice i info) s) ss
IsCovered-next info i s ss h v c j lt = elim (c j lt) [
  | inl r ↦ inl (store_piece-received info i j (slice i info) s v.slots h (inr r))
  | inr (inl same) ↦ inl (store_piece-received info i j (slice i info) s v.slots h (inl same))
  | inr (inr later) ↦ inr later
]

abbrev messages : ℕ → Bytes → List Sent → List Message
messages id info = map (message_of id info)

receive_loop-honest :
    (f id : ℕ) (info rest : Bytes) (ss : List Sent) (s : Collected) (c : Conn)
    → length info < 2 ^ 63
    → length ss < f
    → All (IsFrom id info) ss
    → IsPartOf info s
    → IsCovered info s ss
    → c.incoming ≡ traffic (messages id info ss) ++ rest
    → (c' : Conn) × (receive_loop f (pos id) (num_pieces (length info)) s c ≡ ok (info, c'))
unfolding receive_loop traffic
receive_loop-honest zero id info rest ss s c fits fuel from v cov e = absurd (omega arith)
receive_loop-honest (suc f) id info rest [] s c fits fuel from v cov e =
    let full : num_pieces (length info) ≤ s.pieces_received =
      IsPartOf-counted info s v
        (λ j lt. elim (cov j lt) [ inl r ↦ r | inr never ↦ absurd never ]) in
    (
      c,
      rw (le→not_ltb s.pieces_received (num_pieces (length info)) full)
          (ap (λ m. ok (m, c)) (IsPartOf-whole info s v full)),
    )
receive_loop-honest (suc f) id info rest (x ∷ ss) s c fits fuel from v cov e =
    elim (Bool-cases (ltb s.pieces_received (num_pieces (length info)))) [
      | inr done ↦ (
        c,
        rw done (
            ap (λ m. ok (m, c))
              (IsPartOf-whole info s v
                (not_ltb→le s.pieces_received (num_pieces (length info)) done))),
      )
      | inl more ↦
          let next : c.incoming
              ≡ text_of (message_of id info x) ++ (traffic (messages id info ss) ++ rest) =
            e
            ∙ append_assoc (text_of (message_of id info x)) (traffic (messages id info ss)) rest in
          rw more (
            round x from cov next (λ s' v' cov'.
              receive_loop-honest f id info rest ss s'
                (record c { incoming = traffic (messages id info ss) ++ rest }) fits (omega arith)
                from.1 v' cov' refl))
    ]
  where
    after : Conn
    after = record c { incoming = traffic (messages id info ss) ++ rest }

    round :
        (x : Sent)
        → All (IsFrom id info) (x ∷ ss)
        → IsCovered info s (x ∷ ss)
        → c.incoming ≡ text_of (message_of id info x) ++ (traffic (messages id info ss) ++ rest)
        → ((s' : Collected)
            → IsPartOf info s'
            → IsCovered info s' ss
            → (c' : Conn) × (receive_loop f (pos id) (num_pieces (length info)) s' after
                ≡ ok (info, c')))
        → (c' : Conn) × ((read_message c >>= λ m.
              accept (pos id) (num_pieces (length info)) m.0 s >>= λ s'.
              receive_loop f (pos id) (num_pieces (length info)) s' m.1)
            ≡ ok (info, c'))
    round (unrelated m) (h, hs) cov next later =
        rw
          (
            read_message-text_of m (traffic (messages id info ss) ++ rest) c h.1 next,
            accept_unrelated (pos id) (num_pieces (length info)) (frame_of m) s h.0,
          )
          (later s v cov)
    round (piece i) (h, hs) cov next later =
        rw
          (
            read_message-text_of (piece_message id info i) (traffic (messages id info ss) ++ rest) c
                h.1 next,
            accept_piece id info i s fits (omega (arith, h.0)),
          )
          (later (store_piece (num_pieces (length info)) (pos i) (slice i info) s)
            (store_piece-IsPartOf info i s h.0 v) (IsCovered-next info i s ss h.0 v cov))

-- Let a peer with the metadata `info`, of at most 2^48 bytes, send each piece at least once, in any order
-- and any number of times, with other messages in between, all of them with fewer bytes than the limit of a
-- message, and let the requests be written. Then `downloadMetadata` returns exactly `info`.
pub download_metadata-honest :
    (id : ℕ) (info rest : Bytes) (ss : List Sent) (c : Conn)
    → length info ≤ max_alloc
    → num_pieces (length info) ≤ c.writes_left
    → All (IsFrom id info) ss
    → ((j : ℕ) → j < num_pieces (length info) → HasPiece j ss)
    → c.incoming ≡ traffic (map (message_of id info) ss) ++ rest
    → (c' : Conn) × (download_metadata (pos id) (pos (length info)) c ≡ ok (info, c'))
unfolding download_metadata
download_metadata-honest id info rest ss c fits room from each e =
    let (c1, sent, same) = request_all-sent (pos id) (num_pieces (length info)) 0 c room in
    let size : length ss ≤ length c1.incoming = omega (
      arith,
      ap length (same ∙ e),
      length-append (traffic (messages id info ss)) rest,
      length-traffic (messages id info ss),
      length-map ss (message_of id info),
    ) in
    let (c2, received_all) =
      receive_loop-honest (suc (length c1.incoming)) id info rest ss (nothing_yet (length info)) c1
        (omega arith) (omega arith) from (nothing_yet-IsPartOf info) (λ j lt. inr (each j lt))
        (same ∙ e) in
    (c2, rw (le→not_ltb max_alloc (length info) fits, sent) received_all)
