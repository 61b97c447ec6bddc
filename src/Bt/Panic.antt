-- ===== src/Bt/Panic.antt =====
-- A length that the sender makes up: `decodeString` allocates before it looks at the data.
use bt_dht_crawler.Prelude.{
  ℕ, suc, ◌^◌, ◌<◌, ◌≡◌, sym, ap, ◌∙◌, [], ◌∷◌, ◌++◌, Bytes, length, ok, panic, ◌>>=◌, arith,
}
use bt_dht_crawler.Bt.Value.{bytes}
use bt_dht_crawler.Bt.Decimal.{format}
use bt_dht_crawler.Bt.Decimal.RoundTrip.{format-All, format-cons, parse_int-format}
use bt_dht_crawler.Bt.Decode.{
  max_alloc, read_data, decode_string, decode_fuel, decode_reader, decode,
}
use bt_dht_crawler.Bt.RoundTrip.Strings.{read_length-digits}
use bt_dht_crawler.Bt.RoundTrip.Kinds.{switch_digit}

decode_string_huge :
    (n : ℕ) (rest : Bytes)
    → max_alloc < n
    → n < 2 ^ 63
    → decode_string (format n ++ (b':' ∷ rest)) ≡ panic
unfolding decode_string read_data
decode_string_huge n rest h fits =
    rw (read_length-digits (format n) rest [] (format-All n), parse_int-format n fits)
      (ground arith)

-- A text that begins with a length above the limit of an allocation, and within an int64, makes
-- `Decode` panic, whatever follows the colon.
pub decode_huge :
    (n : ℕ) (rest : Bytes) → max_alloc < n → n < 2 ^ 63 → decode (format n ++ (b':' ∷ rest)) ≡ panic
unfolding decode decode_reader
decode_huge n rest h fits =
    let (c, t, e, d) = format-cons n in
    let whole : format n ++ (b':' ∷ rest) ≡ c ∷ (t ++ (b':' ∷ rest)) =
      ap (λ w. w ++ (b':' ∷ rest)) e in
    let f = length (format n ++ (b':' ∷ rest)) in
    ap (λ m. m >>= λ p. ok p.0)
      (ap (decode_fuel (suc f)) whole
        ∙ switch_digit f c (t ++ (b':' ∷ rest)) (ground arith)
        ∙ ap (λ w. decode_string w >>= λ p. ok (bytes p.0, p.1)) (sym whole)
        ∙ ap (λ m. m >>= λ p. ok (bytes p.0, p.1)) (decode_string_huge n rest h fits))
