-- ===== src/Bt/Metadata/Pieces.antt =====
-- internal/bt/metadata.go: requesting and collecting the pieces.
pub mod Ending
pub mod Foreign
pub mod Copy
pub mod Store
pub mod Served
pub mod Requests
pub mod Honest
use bt_dht_crawler.Prelude.{
  ℕ, zero, suc, ◌+◌, ◌-◌, ◌*◌, ◌^◌, ◌≤◌, ◌<◌, ◌≡◌, ◌≢◌, refl, sym, ap, ap₂, ◌∙◌, subst, Bool, true,
  false, not, ◌&&◌, ◌||◌, ◌/◌, ◌%◌, List, [], ◌∷◌, ◌++◌, append_assoc, append-nil, map, min, Bytes,
  codes, bytes_eq, bytes_eq→eq, eq→bytes_eq, bytes_eq_refl, bytes_eq-same, times, Option-cases,
  length, length-append, take, drop, get_elem?, set, replicate, length-set, length-take,
  length-drop, take-append, drop-append, All, All-append, Pairwise, Pairwise-middle, ltb, ltb→lt,
  leb, ◌==◌, if◌then◌else◌, Outcome, ok, err, panic, Error, ◌>>=◌, Ends, Ends-bind, Ends-mono,
  Ends-if, Always, Bool-cases, inl, inr, ◌⊎◌, arith, Option, none, some,
}
use bt_dht_crawler.Prelude.Int.{ℤ, pos, negsuc, IsInt64}
use bt_dht_crawler.Prelude.Lists.{get_or}
use bt_dht_crawler.Bt.Value.{Dict, dict, int64, from_list}
use bt_dht_crawler.Bt.Encode.{encode}
use bt_dht_crawler.Bt.Decode.{decode_reader, decode_top_dict, max_alloc}
use bt_dht_crawler.Bt.Access.{get_int}
use bt_dht_crawler.Bt.Metadata.Wire.{Conn, Frame, read_message, send_ext_message, is_int, wanted}

abbrev pub piece_size : ℕ
piece_size = 16384

abbrev pub num_pieces : ℕ → ℕ
num_pieces total = (total + piece_size - 1) / piece_size

-- `byte(msgID)`
unfoldable pub to_byte : ℤ → ℕ
to_byte (pos n) = n % 256
to_byte (negsuc n) = 255 - n % 256

-- `requestMetadataPiece`
unfoldable pub request_metadata_piece : ℤ → ℕ → Conn → Outcome Conn
unfolding encode send_ext_message from_list to_byte
request_metadata_piece msg_id piece c =
    encode (
      dict
        (from_list ((codes "msg_type", int64 (pos 0)) ∷ (codes "piece", int64 (pos piece)) ∷ [])))
    >>= λ payload. send_ext_message (to_byte msg_id) payload c

-- The first loop, over `n` pieces from piece `i` on.
unfoldable pub request_all : ℤ → ℕ → ℕ → Conn → Outcome Conn
unfolding request_metadata_piece
request_all msg_id zero i c = ok c
request_all msg_id (suc n) i c =
    request_metadata_piece msg_id i c >>= λ c'. request_all msg_id n (suc i) c'

abbrev pub is_one : Option ℤ → Bool
is_one none = false
is_one (some z) = is_int z 1

abbrev pub piece_in : Option ℤ → Outcome ℤ
piece_in none = err Error.missing_piece
piece_in (some z) = ok z

-- The tests on the dictionary of a piece.
unfoldable pub piece_index : Dict → Outcome ℤ
unfolding get_int is_int
piece_index d =
    if is_one (get_int d (codes "msg_type"))
    then piece_in (get_int d (codes "piece"))
    else err Error.not_data

-- `parseMetadataPiece`
unfoldable pub parse_metadata_piece : Bytes → Outcome (ℤ × Bytes)
unfolding piece_index
parse_metadata_piece text = decode_reader text >>= λ r.
    decode_top_dict (take (length text - length r.1) text) >>= λ d.
    piece_index d >>= λ piece. ok (piece, drop (length text - length r.1) text)

-- The variables of the second loop; `pieces_received` counts the true entries of `received`.
pub record Collected : Type 0 where
  pub metadata : Bytes
  pub received : List Bool
  pub pieces_received : ℕ

-- `copy` of the data onto a slice: what does not fit is left out.
unfoldable pub copy_over : Bytes → Bytes → Bytes
copy_over [] old = old
copy_over (b ∷ bs) [] = []
copy_over (b ∷ bs) (o ∷ old) = b ∷ copy_over bs old

-- `copy(metadata[start:], data)`
unfoldable pub copy_at : ℕ → Bytes → Bytes → Bytes
unfolding copy_over
copy_at start piece metadata = take start metadata ++ copy_over piece (drop start metadata)

-- A piece in range that is not there yet is stored.
unfoldable pub store_piece : ℕ → ℤ → Bytes → Collected → Collected
unfolding copy_at
store_piece n (negsuc i) piece s = s
store_piece n (pos i) piece s =
    if ltb i n && not (get_or s.received i true)
    then record {
      metadata = copy_at (i * piece_size) piece s.metadata;
      received = set s.received i true;
      pieces_received = s.pieces_received + 1;
    }
    else s

-- A message that is no piece is passed over; decoding it may panic.
unfoldable pub take_piece : ℕ → Outcome (ℤ × Bytes) → Collected → Outcome Collected
unfolding store_piece
take_piece n (ok (piece, bytes)) s = ok (store_piece n piece bytes s)
take_piece n (err e) s = ok s
take_piece n panic s = panic

unfoldable pub accept : ℤ → ℕ → Frame → Collected → Outcome Collected
unfolding wanted take_piece parse_metadata_piece
accept msg_id n m s = elim (wanted msg_id m) [
  | none ↦ ok s
  | some body ↦ take_piece n (parse_metadata_piece body) s
]

-- The second loop.
unfoldable pub receive_loop : ℕ → ℤ → ℕ → Collected → Conn → Outcome (Bytes × Conn)
unfolding accept
receive_loop zero msg_id n s c = err Error.out_of_fuel
receive_loop (suc f) msg_id n s c =
    let more =
      read_message c >>= λ m. accept msg_id n m.0 s >>= λ s'. receive_loop f msg_id n s' m.1 in
    if ltb s.pieces_received n then more else ok (s.metadata, c)

abbrev pub nothing_yet : ℕ → Collected
nothing_yet total = record {
  metadata = replicate total 0;
  received = replicate (num_pieces total) false;
  pieces_received = 0;
}

-- `downloadMetadata`: `make([]byte, totalSize)` panics for a negative or too large size. The rounds are one
-- more than the bytes to come.
unfoldable pub download_metadata : ℤ → ℤ → Conn → Outcome (Bytes × Conn)
unfolding request_all receive_loop
download_metadata msg_id (negsuc total) c = panic
download_metadata msg_id (pos total) c =
    if ltb max_alloc total
    then panic
    else request_all msg_id (num_pieces total) 0 c >>= λ c'.
        receive_loop (suc (length c'.incoming)) msg_id (num_pieces total) (nothing_yet total) c'
