-- ===== src/Bt/Metadata/Pieces/Served.antt =====
-- The messages of a peer as the loop takes them.
use bt_dht_crawler.Prelude.{
  ℕ, ◌-◌, ◌^◌, ◌<◌, ◌≡◌, refl, List, [], ◌∷◌, ◌++◌, append-nil, Bytes, codes, length, length-append,
  take-append, drop-append, Outcome, ok, arith, none, some,
}
use bt_dht_crawler.Prelude.Int.{ℤ, pos}
use bt_dht_crawler.Bt.Value.{Value, Dict, dict, int64, from_list, lookup}
use bt_dht_crawler.Bt.Encode.{encode, bytes_less}
use bt_dht_crawler.Bt.Decode.{decode, decode_reader, decode_top_dict}
use bt_dht_crawler.Bt.Access.{get_int}
use bt_dht_crawler.Bt.Received.{received, IsEncodable}
use bt_dht_crawler.Bt.Literal.{literal-IsEncodable}
use bt_dht_crawler.Bt.RoundTrip.{decode_reader-encode}
use bt_dht_crawler.Bt.RoundTrip.Lookup.{received_map}
use bt_dht_crawler.Bt.Metadata.Wire.{Frame, ext_type, wanted, is_int}
use bt_dht_crawler.Bt.Metadata.Wire.Frames.{Message, ext, frame_of}
use bt_dht_crawler.Bt.Metadata.Pieces.{
  num_pieces, Collected, piece_index, parse_metadata_piece, store_piece, take_piece, accept,
}
use bt_dht_crawler.Bt.Metadata.Pieces.Copy.{slice}

-- The dictionary before a piece.
abbrev pub piece_fields : ℕ → ℕ → List (Bytes × Value)
piece_fields total i =
    (codes "msg_type", int64 (pos 1))
    ∷ (codes "piece", int64 (pos i))
    ∷ (codes "total_size", int64 (pos total))
    ∷ []

abbrev text_or_empty : Outcome Bytes → Bytes
text_or_empty (ok e) = e
text_or_empty _ = []

-- A data message of ut_metadata with piece `i` of `info`.
unfoldable pub piece_message : ℕ → Bytes → ℕ → Message
unfolding encode from_list
piece_message id info i =
    ext id
      (text_or_empty (encode (dict (from_list (piece_fields (length info) i)))) ++ slice i info)

piece_fields-IsEncodable :
    (total i : ℕ)
    → total < 2 ^ 63
    → i < 2 ^ 63
    → IsEncodable (dict (from_list (piece_fields total i)))
piece_fields-IsEncodable total i h k =
    literal-IsEncodable (piece_fields total i)
      ((omega arith, omega arith), ((omega arith, k), ((omega arith, h), tt))) refl

-- The dictionary and the piece are told apart, wherever the dictionary ends.
parse_piece :
    (total i : ℕ) (bs : Bytes)
    → total < 2 ^ 63
    → i < 2 ^ 63
    → parse_metadata_piece (text_or_empty (encode (dict (from_list (piece_fields total i)))) ++ bs)
      ≡ ok (pos i, bs)
parse_piece total i bs h k =
    let d : Dict = from_list (piece_fields total i) in
    let fits = piece_fields-IsEncodable total i h k in
    let (e, sent, read) = decode_reader-encode (dict d) bs fits in
    let (e', sent', read') = decode_reader-encode (dict d) [] fits in
    let same : e' ≡ e = cc in
    let alone : decode_reader e ≡ ok (received (dict d), []) = rw (append-nil e', same) at read' in
    rw sent (parsed e read alone)
  where
    parsed :
        (e : Bytes)
        → decode_reader (e ++ bs) ≡ ok (received (dict (from_list (piece_fields total i))), bs)
        → decode_reader e ≡ ok (received (dict (from_list (piece_fields total i))), [])
        → parse_metadata_piece (e ++ bs) ≡ ok (pos i, bs)
    parsed e read alone =
        let cut : length (e ++ bs) - length bs ≡ length e = omega (arith, length-append e bs) in
        let top : decode_top_dict e ≡ ok (received_map (from_list (piece_fields total i))) =
          unfold decode_top_dict decode in rw alone (unfold received in refl) in
        let index : piece_index (received_map (from_list (piece_fields total i))) ≡ ok (pos i) =
          unfold piece_index from_list received lookup bytes_less get_int in refl in
        unfold parse_metadata_piece in
        rw (read, cut, take-append e bs, drop-append e bs, top, index) refl

wanted_piece : (id : ℕ) (body : Bytes) → wanted (pos id) (ext_type, id ∷ body) ≡ some body
unfolding wanted is_int
wanted_piece id body = ground arith

accept-wanted :
    (id : ℤ) (n : ℕ) (m : Frame) (s : Collected) (body bs : Bytes) (i : ℤ)
    → wanted id m ≡ some body
    → parse_metadata_piece body ≡ ok (i, bs)
    → accept id n m s ≡ ok (store_piece n i bs s)
unfolding accept take_piece
accept-wanted id n m s body bs i e p = rw (accept, e, p) refl

pub accept_piece :
    (id : ℕ) (info : Bytes) (i : ℕ) (s : Collected)
    → length info < 2 ^ 63
    → i < 2 ^ 63
    → accept (pos id) (num_pieces (length info)) (frame_of (piece_message id info i)) s
      ≡ ok (store_piece (num_pieces (length info)) (pos i) (slice i info) s)
accept_piece id info i s h k =
    accept-wanted (pos id) (num_pieces (length info)) (frame_of (piece_message id info i)) s
      (text_or_empty (encode (dict (from_list (piece_fields (length info) i)))) ++ slice i info)
      (slice i info) (pos i) (unfold piece_message in wanted_piece id _)
      (parse_piece (length info) i (slice i info) h k)

pub accept_unrelated :
    (id : ℤ) (n : ℕ) (m : Frame) (s : Collected) → wanted id m ≡ none → accept id n m s ≡ ok s
unfolding accept
accept_unrelated id n m s e = rw (accept, e) refl
