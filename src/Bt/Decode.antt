-- ===== src/Bt/Decode.antt =====
-- internal/bt/bencode.go: `Decode` and its parts. A reader is the list of the bytes left in it.
pub mod Total
use bt_dht_crawler.Prelude.{
  ℕ, zero, suc, ◌^◌, [], ◌∷◌, ◌++◌, Bytes, length, take, drop, ltb, leb, ◌==◌, if◌then◌else◌,
  Outcome, ok, err, panic, Error, ◌>>=◌,
}
use bt_dht_crawler.Prelude.Int.{ℤ, pos_part}
use bt_dht_crawler.Bt.Decimal.{parse_int, is_digit}
use bt_dht_crawler.Bt.Value.{
  Value, Items, Dict, bytes, int64, list, dict, nil, empty, assign, push_back,
}

-- `make([]byte, n)` panics above this size: `maxAlloc` of the Go runtime on linux/amd64. Below it
-- the model takes memory to be enough.
abbrev pub max_alloc : ℕ
max_alloc = 2 ^ 48

-- The loop of `decodeInt`: the bytes before the next 'e', and the rest behind it.
unfoldable pub read_int : Bytes → Bytes → Outcome (Bytes × Bytes)
read_int [] buf = err Error.unexpected_eof
read_int (b ∷ r) buf = if b == b'e' then ok (buf, r) else read_int r (buf ++ (b ∷ []))

unfoldable pub decode_int : Bytes → Outcome (ℤ × Bytes)
unfolding read_int parse_int
decode_int bs = read_int bs [] >>= λ p. parse_int p.0 >>= λ z. ok (z, p.1)

-- The first loop of `decodeString`: the digits before the next ':'.
unfoldable pub read_length : Bytes → Bytes → Outcome (Bytes × Bytes)
read_length [] buf = err Error.unexpected_eof
read_length (b ∷ r) buf =
    if b == b':'
    then ok (buf, r)
    else if is_digit b
    then read_length r (buf ++ (b ∷ []))
    else err Error.invalid_bencode

-- `make` and `io.ReadFull`: what is written before the data is known to be there.
unfoldable pub read_data : ℕ → Bytes → Outcome (Bytes × Bytes)
read_data n r =
    if ltb max_alloc n
    then panic
    else if leb n (length r)
    then ok (take n r, drop n r)
    else err Error.unexpected_eof

unfoldable pub decode_string : Bytes → Outcome (Bytes × Bytes)
unfolding read_length parse_int read_data
decode_string bs = read_length bs [] >>= λ p. parse_int p.0 >>= λ z. read_data (pos_part z) p.1

-- A decoder of one value, which the loops over lists and dictionaries call.
abbrev pub Decoder : Type 0
Decoder = Bytes → Outcome (Value × Bytes)

-- `decodeList`, with fuel for its rounds.
unfoldable pub decode_list : Decoder → ℕ → Bytes → Items → Outcome (Items × Bytes)
decode_list dec zero bs acc = err Error.out_of_fuel
decode_list dec (suc k) [] acc = err Error.unexpected_eof
decode_list dec (suc k) (b ∷ r) acc =
    let more = dec (b ∷ r) >>= λ p. decode_list dec k p.1 (push_back acc p.0) in
    if b == b'e' then ok (acc, r) else more

-- `decodeDict`, with fuel for its rounds.
unfoldable pub decode_dict : Decoder → ℕ → Bytes → Dict → Outcome (Dict × Bytes)
unfolding decode_string
decode_dict dec zero bs acc = err Error.out_of_fuel
decode_dict dec (suc k) [] acc = err Error.unexpected_eof
decode_dict dec (suc k) (b ∷ r) acc =
    let more = decode_string (b ∷ r) >>= λ key.
    dec key.1 >>= λ p. decode_dict dec k p.1 (assign key.0 p.0 acc) in
    if b == b'e' then ok (acc, r) else more

-- The switch of `decode`.
unfoldable pub decode_switch : Decoder → ℕ → Bytes → Outcome (Value × Bytes)
decode_switch dec k [] = err Error.unexpected_eof
decode_switch dec k (b ∷ r) =
    if b == b'i'
    then decode_int r >>= (λ p. ok (int64 p.0, p.1))
    else if b == b'l'
    then decode_list dec k r nil >>= (λ p. ok (list p.0, p.1))
    else if b == b'd'
    then decode_dict dec k r empty >>= (λ p. ok (dict p.0, p.1))
    else if is_digit b
    then decode_string (b ∷ r) >>= (λ p. ok (bytes p.0, p.1))
    else err Error.invalid_bencode

-- `decode`, with fuel for the nesting and for the rounds of each loop.
unfoldable pub decode_fuel : ℕ → Bytes → Outcome (Value × Bytes)
unfolding decode_switch
decode_fuel zero bs = err Error.out_of_fuel
decode_fuel (suc f) bs = decode_switch (decode_fuel f) f bs

-- `decode` on a reader: one more round than there are bytes.
unfoldable pub decode_reader : Bytes → Outcome (Value × Bytes)
unfolding decode_fuel
decode_reader bs = decode_fuel (suc (length bs)) bs

-- `Decode` ignores what follows the first value.
unfoldable pub decode : Bytes → Outcome Value
unfolding decode_reader
decode bs = decode_reader bs >>= λ p. ok p.0

expect_dict : Value → Outcome Dict
expect_dict (dict d) = ok d
expect_dict _ = err Error.not_dictionary

unfoldable pub decode_top_dict : Bytes → Outcome Dict
unfolding decode expect_dict
decode_top_dict bs = decode bs >>= expect_dict
