-- ===== src/Tests/Peers.antt =====
-- Downloads from peers at concrete inputs.
use bt_dht_crawler.Prelude.{
  ℕ, zero, suc, ◌<◌, ◌≡◌, refl, List, [], ◌∷◌, ◌++◌, map, Bytes, codes, length, replicate, Outcome,
  ok, err, panic, Error, Ends, inl, arith, none,
}
use bt_dht_crawler.Prelude.Int.{pos, negsuc}
use bt_dht_crawler.Bt.Value.{dict, from_list}
use bt_dht_crawler.Bt.Encode.{encode}
use bt_dht_crawler.Bt.Received.{IsEncodable, AreEncodable}
use bt_dht_crawler.Bt.Literal.{literal-IsEncodable}
use bt_dht_crawler.Bt.Metadata.Wire.{Conn, read_message, wanted}
use bt_dht_crawler.Bt.Metadata.Wire.Frames.{
  Message, keep_alive, plain, ext, text_of, traffic, read_message-text_of, IsSendable,
}
use bt_dht_crawler.Bt.Metadata.Handshake.Exchange.{ext_fields}
use bt_dht_crawler.Bt.Metadata.Pieces.{num_pieces}
use bt_dht_crawler.Bt.Metadata.Pieces.Served.{piece_message}
use bt_dht_crawler.Bt.Metadata.Pieces.Honest.{Sent, piece, message_of, unrelated, HasPiece}
use bt_dht_crawler.Bt.Metadata.Pieces.Foreign.{IsConforming}
use bt_dht_crawler.Bt.Metadata.Info.{parse_metadata}
use bt_dht_crawler.Bt.Metadata.Info.Files.{
  Described, Torrent, file_items, parts_items, file_fields, info_fields, info_dict, listed,
  parse_metadata-encode,
}
use bt_dht_crawler.Bt.Metadata.Session.{download}
use bt_dht_crawler.Bt.Metadata.Session.Opening.{opening, Greeting, Answered}
use bt_dht_crawler.Bt.Metadata.Session.Outcomes.{IsVerified, download-IsVerified}
use bt_dht_crawler.Bt.Metadata.Session.Peers.{
  download-honest, download-conforming, download-negative,
}

abbrev pub hash : Bytes
hash = replicate 20 7

-- Reserved bytes with more bits than ours, and another identifier.
abbrev flags : Bytes
flags = 0 ∷ 0 ∷ 0 ∷ 0 ∷ 0 ∷ 0x18 ∷ 0 ∷ 5 ∷ []

abbrev their_id : Bytes
their_id = replicate 20 99

abbrev pub hashing : Bytes → Bytes
hashing text = hash

-- A peer that will send these bytes.
abbrev pub peer : Bytes → Conn
peer bs = record { incoming = bs; sent = []; writes_left = 9 }

abbrev pub dial_to : Bytes → Bytes → Outcome Conn
dial_to bs address = ok (peer bs)

abbrev pub info : Bytes
info = codes "d4:name1:ae"

abbrev hello : Bytes
hello = codes "d1:md11:ut_metadatai1ee13:metadata_sizei11ee"

encode-hello : encode (dict (from_list (ext_fields (pos 1) (pos 11)))) ≡ ok hello
unfolding encode from_list
encode-hello = refl

abbrev before : List Message
before = keep_alive ∷ plain 5 (1 ∷ []) ∷ []

greets : Greeting flags their_id (pos 1) (pos 11) before hello
unfolding wanted
greets = record {
  eight = refl;
  extended = refl;
  twenty = refl;
  id_fits = omega arith;
  size_fits = omega arith;
  others = ((refl, tt), ((refl, omega arith), tt));
  encoded = encode-hello;
  sendable = omega arith;
}

abbrev sendings : List Sent
sendings = unrelated keep_alive ∷ piece 0 ∷ piece 0 ∷ []

abbrev pub incoming : Bytes
incoming =
    opening flags their_id hash before hello (traffic (map (message_of 1 info) sendings) ++ [])

answers : (address : Bytes) → Answered (dial_to incoming) hash address incoming (peer incoming)
answers address = record { dialled = refl; hash_size = refl; room = omega arith; arriving = refl }

sent_well : IsSendable (message_of 1 info (piece 0))
unfolding piece_message
sent_well = omega arith

all_quiet : (wanted (pos 1) (0, []) ≡ none) × IsSendable keep_alive
unfolding wanted
all_quiet = (refl, tt)

each_piece : (j : ℕ) → j < num_pieces (length info) → HasPiece j sendings
each_piece zero h = inl refl
each_piece (suc j) h = absurd (omega arith)

download-honest_example : download hashing (dial_to incoming) hash [] ≡ parse_metadata hash info
download-honest_example =
    download-honest hashing (dial_to incoming) hash [] flags their_id 1 info [] hello before
      sendings (peer incoming) (answers []) greets (omega arith) (omega arith) (omega arith) refl
      (all_quiet, ((omega arith, sent_well), ((omega arith, sent_well), tt))) each_piece

-- From any address.
pub download_info :
    (address : Bytes) → download hashing (dial_to incoming) hash address ≡ parse_metadata hash info
download_info address =
    download-honest hashing (dial_to incoming) hash address flags their_id 1 info [] hello before
      sendings (peer incoming) (answers address) greets (omega arith) (omega arith) (omega arith)
      refl (all_quiet, ((omega arith, sent_well), ((omega arith, sent_well), tt))) each_piece

-- A peer that chose the identifier 3 and sends the piece as it was asked to.
abbrev hello_other : Bytes
hello_other = codes "d1:md11:ut_metadatai3ee13:metadata_sizei11ee"

encode-hello_other : encode (dict (from_list (ext_fields (pos 3) (pos 11)))) ≡ ok hello_other
unfolding encode from_list
encode-hello_other = refl

greets_other : Greeting flags their_id (pos 3) (pos 11) [] hello_other
greets_other = record {
  eight = refl;
  extended = refl;
  twenty = refl;
  id_fits = omega arith;
  size_fits = omega arith;
  others = tt;
  encoded = encode-hello_other;
  sendable = omega arith;
}

abbrev incoming_other : Bytes
incoming_other =
    opening flags their_id hash [] hello_other (traffic (message_of 1 info (piece 0) ∷ []))

answers_other : Answered (dial_to incoming_other) hash [] incoming_other (peer incoming_other)
answers_other = record { dialled = refl; hash_size = refl; room = omega arith; arriving = refl }

follows : IsConforming (message_of 1 info (piece 0))
unfolding piece_message
follows = (omega arith, omega arith)

download-conforming_example : download hashing (dial_to incoming_other) hash [] ≡ err Error.external
download-conforming_example =
    download-conforming hashing (dial_to incoming_other) hash [] flags their_id 3 11 hello_other []
      (message_of 1 info (piece 0) ∷ []) (peer incoming_other) answers_other greets_other
      (omega arith) (omega arith) (omega arith) (omega arith) (follows, tt)

-- A peer that announces a size of -1.
abbrev hello_negative : Bytes
hello_negative = codes "d1:md11:ut_metadatai1ee13:metadata_sizei-1ee"

encode-hello_negative :
    encode (dict (from_list (ext_fields (pos 1) (negsuc 0)))) ≡ ok hello_negative
unfolding encode from_list
encode-hello_negative = refl

greets_negative : Greeting flags their_id (pos 1) (negsuc 0) [] hello_negative
greets_negative = record {
  eight = refl;
  extended = refl;
  twenty = refl;
  id_fits = omega arith;
  size_fits = omega arith;
  others = tt;
  encoded = encode-hello_negative;
  sendable = omega arith;
}

abbrev incoming_negative : Bytes
incoming_negative = opening flags their_id hash [] hello_negative []

answers_negative :
    Answered (dial_to incoming_negative) hash [] incoming_negative (peer incoming_negative)
answers_negative = record { dialled = refl; hash_size = refl; room = omega arith; arriving = refl }

download-negative_example : download hashing (dial_to incoming_negative) hash [] ≡ panic
download-negative_example =
    download-negative hashing (dial_to incoming_negative) hash [] flags their_id 1 0 hello_negative
      [] [] (peer incoming_negative) answers_negative greets_negative (omega arith)

download-IsVerified_example :
    Ends (IsVerified hashing hash) (download hashing (dial_to incoming) hash [])
download-IsVerified_example = download-IsVerified hashing (dial_to incoming) hash [] tt

read_message-text_of_example :
    read_message (peer (text_of (ext 1 (2 ∷ [])) ++ (9 ∷ [])))
    ≡ ok ((20, 1 ∷ 2 ∷ []), peer (9 ∷ []))
read_message-text_of_example =
    read_message-text_of (ext 1 (2 ∷ [])) (9 ∷ []) (peer (text_of (ext 1 (2 ∷ [])) ++ (9 ∷ [])))
      (omega arith) refl

-- A torrent of two files, one of them two directories deep.
abbrev deep : Described
deep = record { dirs = codes "a" ∷ codes "b" ∷ []; file = codes "c"; size = pos 3 }

abbrev flat : Described
flat = record { dirs = []; file = codes "d"; size = pos 2 }

abbrev torrent : Torrent
torrent = record { name = codes "t"; piece_len = pos 4; hashes = hash; contents = deep ∷ flat ∷ [] }

file_items-IsEncodable : AreEncodable (file_items torrent.contents)
unfolding file_items parts_items
file_items-IsEncodable = (
  literal-IsEncodable (file_fields deep)
      (
        (omega arith, omega arith),
        ((omega arith, (omega arith, (omega arith, (omega arith, tt)))), tt),
      )
      refl,
  (
    literal-IsEncodable (file_fields flat)
        ((omega arith, omega arith), ((omega arith, (omega arith, tt)), tt)) refl,
    tt,
  ),
)

torrent-IsEncodable : IsEncodable (dict (info_dict torrent))
torrent-IsEncodable =
    literal-IsEncodable (info_fields torrent)
      (
        (omega arith, file_items-IsEncodable),
        (
          (omega arith, omega arith),
          ((omega arith, omega arith), ((omega arith, omega arith), tt)),
        ),
      )
      refl

parse_metadata-encode_example :
    (text : Bytes) × (encode (dict (info_dict torrent)) ≡ ok text)
    × (parse_metadata hash text ≡ ok (listed hash text torrent))
parse_metadata-encode_example = parse_metadata-encode hash torrent torrent-IsEncodable
