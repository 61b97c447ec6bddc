-- ===== src/Bt/RoundTrip/Strings.antt =====
-- Texts and numbers: what `encode` writes, `decodeString` and `decodeInt` read back.
use bt_dht_crawler.Prelude.{
  ℕ, suc, ◌≤◌, ◌≡◌, ◌≢◌, refl, [], ◌∷◌, ◌++◌, append_assoc, append-nil, Bytes, length,
  length-append, take-append, drop-append, All, ok, arith,
}
use bt_dht_crawler.Prelude.Int.{ℤ, pos, negsuc, IsInt64}
use bt_dht_crawler.Bt.Decimal.{format, format_int, IsDigit}
use bt_dht_crawler.Bt.Decimal.RoundTrip.{
  format-All, format-cons, parse_int-format, parse_int-format_int,
}
use bt_dht_crawler.Bt.Encode.{encode_string}
use bt_dht_crawler.Bt.Decode.{
  max_alloc, read_int, decode_int, read_length, read_data, decode_string,
}

pub read_length-digits :
    (ds s buf : Bytes) → All IsDigit ds → read_length (ds ++ (b':' ∷ s)) buf ≡ ok (buf ++ ds, s)
unfolding read_length
read_length-digits [] s buf h = rw append-nil refl
read_length-digits (d ∷ ds) s buf h =
    ground (arith, read_length-digits ds s (buf ++ (d ∷ [])) h.1, append_assoc buf (d ∷ []) ds)

read_data-append :
    (s rest : Bytes) → length s ≤ max_alloc → read_data (length s) (s ++ rest) ≡ ok (s, rest)
unfolding read_data
read_data-append s rest h =
    ground (arith, take-append s rest, drop-append s rest, length-append s rest)

-- A text that fits into memory is read back, whatever follows it.
pub decode_string-encode_string :
    (s rest : Bytes) → length s ≤ max_alloc → decode_string (encode_string s ++ rest) ≡ ok (s, rest)
unfolding decode_string encode_string
decode_string-encode_string s rest h =
    rw
      (
        append_assoc (format (length s)) (b':' ∷ s) rest,
        read_length-digits (format (length s)) (s ++ rest) [] (format-All (length s)),
        parse_int-format (length s) (omega arith),
      )
      (read_data-append s rest h)

-- No byte of a printed number is an 'e'.
abbrev NoE : Bytes → Type 0
NoE = All (λ c. c ≢ b'e')

read_int-append :
    (ds rest buf : Bytes) → NoE ds → read_int (ds ++ (b'e' ∷ rest)) buf ≡ ok (buf ++ ds, rest)
unfolding read_int
read_int-append [] rest buf h = rw append-nil refl
read_int-append (d ∷ ds) rest buf h =
    ground (arith, read_int-append ds rest (buf ++ (d ∷ [])) h.1, append_assoc buf (d ∷ []) ds)

digits-NoE : (ds : Bytes) → All IsDigit ds → NoE ds
digits-NoE [] h = tt
digits-NoE (d ∷ ds) h = (omega arith, digits-NoE ds h.1)

format_int-NoE : (z : ℤ) → NoE (format_int z)
unfolding format_int
format_int-NoE (pos n) = digits-NoE (format n) (format-All n)
format_int-NoE (negsuc n) = (omega arith, digits-NoE (format (suc n)) (format-All (suc n)))

-- An int64 is read back.
pub decode_int-format_int :
    (z : ℤ) (rest : Bytes) → IsInt64 z → decode_int (format_int z ++ (b'e' ∷ rest)) ≡ ok (z, rest)
unfolding decode_int
decode_int-format_int z rest h =
    rw (read_int-append (format_int z) rest [] (format_int-NoE z), parse_int-format_int z h)

-- The first byte is a digit, so none that the switch of `decode` or a loop takes for its own.
pub encode_string-cons : (s : Bytes) → (c : ℕ) × (t : Bytes) × (encode_string s ≡ c ∷ t) × IsDigit c
unfolding encode_string
encode_string-cons s =
    let (c, t, e, d) = format-cons (length s) in (c, t ++ (b':' ∷ s), rw e refl, d)
