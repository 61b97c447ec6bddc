-- ===== src/Bt/Metadata/Pieces/Ending.antt =====
-- Collecting the pieces ends, whatever the peer sends.
use bt_dht_crawler.Prelude.{
  ℕ, zero, suc, ◌-◌, ◌<◌, [], ◌∷◌, Bytes, codes, Option-cases, length, take, ltb, Outcome, ok, err,
  panic, Error, Ends, Ends-bind, Ends-if, Always, inl, inr, arith, Option, none, some,
}
use bt_dht_crawler.Prelude.Int.{ℤ, pos, negsuc}
use bt_dht_crawler.Bt.Value.{Dict, dict, int64, from_list}
use bt_dht_crawler.Bt.Encode.{encode}
use bt_dht_crawler.Bt.Decode.{decode_reader, decode_top_dict, max_alloc}
use bt_dht_crawler.Bt.Decode.Total.{decode_reader-Consumes, decode_top_dict-Ends}
use bt_dht_crawler.Bt.Access.{get_int}
use bt_dht_crawler.Bt.Metadata.Wire.{
  Conn, Frame, write_left, send_ext_message, read_message, wanted,
}
use bt_dht_crawler.Bt.Metadata.Wire.Frames.{read_message-Ends}
use bt_dht_crawler.Bt.Metadata.Pieces.{
  num_pieces, is_one, to_byte, piece_in, Collected, request_metadata_piece, request_all,
  piece_index, parse_metadata_piece, take_piece, accept, receive_loop, nothing_yet,
  download_metadata,
}

-- A result of the form of `piece_index`.
piece_index-Ends : (d : Dict) → Ends Always (piece_index d)
unfolding piece_index
piece_index-Ends d =
    Ends-if Always (is_one (get_int d (codes "msg_type"))) (piece_in (get_int d (codes "piece")))
      (err Error.not_data) (by_option (get_int d (codes "piece"))) tt
  where
    by_option : (o : Option ℤ) → Ends Always (piece_in o)
    by_option none = tt
    by_option (some z) = tt

parse_metadata_piece-Ends : (text : Bytes) → Ends Always (parse_metadata_piece text)
unfolding parse_metadata_piece
parse_metadata_piece-Ends text =
    Ends-bind _ Always (decode_reader text) _ (decode_reader-Consumes text) λ r h.
      Ends-bind Always Always (decode_top_dict (take (length text - length r.1) text)) _
        (decode_top_dict-Ends (take (length text - length r.1) text))
        λ d _. Ends-bind Always Always (piece_index d) _ (piece_index-Ends d) (λ p _. tt)

accept-Ends : (id : ℤ) (n : ℕ) (m : Frame) (s : Collected) → Ends Always (accept id n m s)
unfolding accept
accept-Ends id n m s = elim (Option-cases (wanted id m)) [
  | inl e ↦ rw (accept, e) tt
  | inr (body, e) ↦ rw (accept, e) (taken (parse_metadata_piece body))
]
  where
    taken : (r : Outcome (ℤ × Bytes)) → Ends Always (take_piece n r s)
    taken (ok (i, bs)) = unfold take_piece in tt
    taken (err x) = unfold take_piece in tt
    taken panic = unfold take_piece in tt

receive_loop-Ends :
    (f : ℕ) (id : ℤ) (n : ℕ) (s : Collected) (c : Conn)
    → length c.incoming < f
    → Ends Always (receive_loop f id n s c)
unfolding receive_loop
receive_loop-Ends zero id n s c h = absurd (omega arith)
receive_loop-Ends (suc f) id n s c h =
    Ends-if Always (ltb s.pieces_received n) _ _
      (Ends-bind _ Always (read_message c) _ (read_message-Ends c) λ m k.
        Ends-bind Always Always (accept id n m.0 s) _ (accept-Ends id n m.0 s)
          λ s' _. receive_loop-Ends f id n s' m.1 (omega arith))
      tt

pub write_left-Ends : (w : ℕ) (bs : Bytes) (c : Conn) → Ends Always (write_left w bs c)
unfolding write_left
write_left-Ends zero bs c = tt
write_left-Ends (suc w) bs c = tt

pub send_ext_message-Ends :
    (id : ℕ) (text : Bytes) (c : Conn) → Ends Always (send_ext_message id text c)
unfolding send_ext_message
send_ext_message-Ends id text c = write_left-Ends c.writes_left _ c

request_metadata_piece-Ends :
    (id : ℤ) (i : ℕ) (c : Conn) → Ends Always (request_metadata_piece id i c)
unfolding request_metadata_piece
request_metadata_piece-Ends id i c =
    Ends-bind Always Always
      (encode (
        dict (from_list ((codes "msg_type", int64 (pos 0)) ∷ (codes "piece", int64 (pos i)) ∷ []))))
      (λ text. send_ext_message (to_byte id) text c) (unfold encode from_list in tt)
      (λ text _. send_ext_message-Ends (to_byte id) text c)

request_all-Ends : (id : ℤ) (n i : ℕ) (c : Conn) → Ends Always (request_all id n i c)
unfolding request_all
request_all-Ends id zero i c = tt
request_all-Ends id (suc n) i c =
    Ends-bind Always Always (request_metadata_piece id i c) _ (request_metadata_piece-Ends id i c)
      (λ c' _. request_all-Ends id n (suc i) c')

pub download_metadata-Ends : (id size : ℤ) (c : Conn) → Ends Always (download_metadata id size c)
unfolding download_metadata
download_metadata-Ends id (negsuc n) c = tt
download_metadata-Ends id (pos n) c = Ends-if Always (ltb max_alloc n) _ _ tt (
    Ends-bind Always Always (request_all id (num_pieces n) 0 c) _
      (request_all-Ends id (num_pieces n) 0 c)
      (λ c' _.
        receive_loop-Ends (suc (length c'.incoming)) id (num_pieces n) (nothing_yet n) c'
          (omega arith)))
