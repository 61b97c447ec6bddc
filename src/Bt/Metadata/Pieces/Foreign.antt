-- ===== src/Bt/Metadata/Pieces/Foreign.antt =====
-- A peer whose messages do not have the identifier that the code waits for.
use bt_dht_crawler.Prelude.{
  ℕ, zero, suc, ◌≤◌, ◌<◌, ◌≡◌, ◌≢◌, refl, ap, ◌∙◌, List, [], ◌∷◌, length, All, lt→ltb, le→not_ltb,
  err, Error, ◌>>=◌, arith, none,
}
use bt_dht_crawler.Prelude.Int.{ℤ, pos}
use bt_dht_crawler.Bt.Decode.{max_alloc}
use bt_dht_crawler.Bt.Metadata.Wire.{Conn, wanted, is_int}
use bt_dht_crawler.Bt.Metadata.Wire.Frames.{
  Message, keep_alive, plain, ext, frame_of, IsSendable, traffic, read_message-text_of,
  read_message-end, length-traffic,
}
use bt_dht_crawler.Bt.Metadata.Pieces.{
  num_pieces, Collected, receive_loop, nothing_yet, download_metadata,
}
use bt_dht_crawler.Bt.Metadata.Pieces.Served.{accept_unrelated}
use bt_dht_crawler.Bt.Metadata.Pieces.Requests.{request_all-sent}

receive_loop-foreign :
    (f : ℕ) (id : ℤ) (n : ℕ) (ms : List Message) (s : Collected) (c : Conn)
    → length ms < f
    → s.pieces_received < n
    → All (λ m. (wanted id (frame_of m) ≡ none) × IsSendable m) ms
    → c.incoming ≡ traffic ms
    → receive_loop f id n s c ≡ err Error.external
unfolding receive_loop traffic
receive_loop-foreign zero id n ms s c fuel left foreign e = absurd (omega arith)
receive_loop-foreign (suc f) id n [] s c fuel left foreign e =
    rw (lt→ltb s.pieces_received n left, read_message-end c e) refl
receive_loop-foreign (suc f) id n (m ∷ ms) s c fuel left foreign e =
    rw
      (
        lt→ltb s.pieces_received n left,
        read_message-text_of m (traffic ms) c foreign.0.1 e,
        ◌>>=◌,
        accept_unrelated id n (frame_of m) s foreign.0.0,
      )
      (receive_loop-foreign f id n ms s (record c { incoming = traffic ms }) (omega arith) left
        foreign.1 refl)

-- The messages of a peer that follows the extension protocol: its extension messages have the identifier 1,
-- which `sendExtHandshake` asked for, or 0, and all are below the size limit.
abbrev pub IsConforming : Message → Type 0
IsConforming keep_alive = Unit {0}
IsConforming (plain t payload) = (t ≢ 20) × IsSendable (plain t payload)
IsConforming (ext id payload) = (id < 2) × IsSendable (ext id payload)

conforming-unwanted :
    (id : ℕ) (ms : List Message)
    → 1 < id
    → All IsConforming ms
    → All (λ m. (wanted (pos id) (frame_of m) ≡ none) × IsSendable m) ms
unfolding wanted is_int
conforming-unwanted id [] h a = tt
conforming-unwanted id (keep_alive ∷ ms) h (a, as') = ((refl, tt), conforming-unwanted id ms h as')
conforming-unwanted id (plain t [] ∷ ms) h ((ne, small), as') =
    ((refl, small), conforming-unwanted id ms h as')
conforming-unwanted id (plain t (b ∷ bs) ∷ ms) h ((ne, small), as') =
    ((ground arith, small), conforming-unwanted id ms h as')
conforming-unwanted id (ext k payload ∷ ms) h ((le, small), as') =
    ((ground arith, small), conforming-unwanted id ms h as')

-- Let the requests be written to a peer that chose another identifier for ut_metadata than 1, and let it answer
-- with conforming messages only, pieces among them. Then `downloadMetadata` of a size from 1 to 2^48 fails,
-- since it waits for the identifier that the peer chose for itself.
pub download_metadata-conforming :
    (id size : ℕ) (ms : List Message) (c : Conn)
    → 1 < id
    → 0 < size
    → size ≤ max_alloc
    → num_pieces size ≤ c.writes_left
    → All IsConforming ms
    → c.incoming ≡ traffic ms
    → download_metadata (pos id) (pos size) c ≡ err Error.external
unfolding download_metadata
download_metadata-conforming id size ms c other some_bytes fits room conforming e =
    let (c1, sent, same) = request_all-sent (pos id) (num_pieces size) 0 c room in
    let loop : receive_loop (suc (length c1.incoming)) (pos id) (num_pieces size) (nothing_yet size)
          c1
        ≡ err Error.external =
      receive_loop-foreign (suc (length c1.incoming)) (pos id) (num_pieces size) ms
        (nothing_yet size) c1 (omega (arith, ap length (same ∙ e), length-traffic ms)) (omega arith)
        (conforming-unwanted id ms other conforming) (same ∙ e) in
    rw (le→not_ltb max_alloc size fits, sent) loop
