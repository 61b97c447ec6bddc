-- ===== src/Bt/Metadata/Pieces/Requests.antt =====
-- The requests for the pieces.
use bt_dht_crawler.Prelude.{
  ℕ, zero, suc, ◌+◌, ◌≤◌, ◌<◌, ◌≡◌, refl, ap, ◌∙◌, [], ◌∷◌, Bytes, codes, ok, ◌>>=◌, arith,
}
use bt_dht_crawler.Prelude.Int.{ℤ, pos}
use bt_dht_crawler.Bt.Value.{dict, int64, from_list}
use bt_dht_crawler.Bt.Encode.{encode}
use bt_dht_crawler.Bt.Metadata.Wire.{Conn, send_ext_message}
use bt_dht_crawler.Bt.Metadata.Wire.Frames.{send_ext_message-sent}
use bt_dht_crawler.Bt.Metadata.Pieces.{to_byte, request_metadata_piece, request_all}

request_text :
    (i : ℕ)
    → (payload : Bytes) × (encode (
          dict
            (from_list ((codes "msg_type", int64 (pos 0)) ∷ (codes "piece", int64 (pos i)) ∷ [])))
        ≡ ok payload)
unfolding encode from_list
request_text i = (_, refl)

-- The requests leave what the peer sends as it is.
request_metadata_piece-sent :
    (id : ℤ) (i : ℕ) (c : Conn)
    → 0 < c.writes_left
    → (c' : Conn) × (request_metadata_piece id i c ≡ ok c')
      × (c'.incoming ≡ c.incoming)
      × (c'.writes_left + 1 ≡ c.writes_left)
unfolding request_metadata_piece
request_metadata_piece-sent id i c h =
    let (payload, e) = request_text i in
    let (c', sent, same, left, log) = send_ext_message-sent (to_byte id) payload c h in
    (c', ap (λ m. m >>= λ text. send_ext_message (to_byte id) text c) e ∙ sent, same, left)

pub request_all-sent :
    (id : ℤ) (n i : ℕ) (c : Conn)
    → n ≤ c.writes_left
    → (c' : Conn) × (request_all id n i c ≡ ok c') × (c'.incoming ≡ c.incoming)
unfolding request_all
request_all-sent id zero i c h = (c, refl, refl)
request_all-sent id (suc n) i c h =
    let (c1, sent, same, left) = request_metadata_piece-sent id i c (omega arith) in
    let (c2, rest, same') = request_all-sent id n (suc i) c1 (omega arith) in
    (c2, ap (λ m. m >>= λ c'. request_all id n (suc i) c') sent ∙ rest, same' ∙ same)
