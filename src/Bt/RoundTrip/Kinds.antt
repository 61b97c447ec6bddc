-- ===== src/Bt/RoundTrip/Kinds.antt =====
-- Each kind of value: the decoder reads what the encoder writes.
use bt_dht_crawler.Prelude.{
  ℕ, zero, suc, ◌≤◌, ◌<◌, ◌≡◌, refl, sym, ap, ◌∙◌, subst, Bool, true, List, [], ◌∷◌, ◌++◌,
  append_assoc, map, Bytes, length, length-append, All, Pairwise, ok, ◌>>=◌, arith,
}
use bt_dht_crawler.Prelude.Int.{ℤ, IsInt64}
use bt_dht_crawler.Prelude.Sort.{sort_by, sort_by-All, sort_by-Pairwise, map-sort_by}
use bt_dht_crawler.Bt.Value.{bytes, int64, list, dict, nil, append_items, from_list}
use bt_dht_crawler.Bt.Decimal.{format_int, is_digit}
use bt_dht_crawler.Bt.Encode.{
  encode_string, write_fields, write_map, bytes_less, field_less, wrap_int,
}
use bt_dht_crawler.Bt.Received.{pair_less}
use bt_dht_crawler.Bt.Decode.{max_alloc, decode_string, decode_switch, decode_fuel}
use bt_dht_crawler.Bt.RoundTrip.Strings.{
  decode_string-encode_string, encode_string-cons, decode_int-format_int,
}
use bt_dht_crawler.Bt.RoundTrip.Loops.{Reads, Piece, texts, values, decode_list-texts}
use bt_dht_crawler.Bt.RoundTrip.Dicts.{
  Part, field, pair, IsGood, Apart, decode_dict-write_fields, encode_string-Starts,
}

-- A digit sends the switch to `decodeString`.
pub switch_digit :
    (f c : ℕ) (t : Bytes)
    → is_digit c ≡ true
    → decode_fuel (suc f) (c ∷ t) ≡ (decode_string (c ∷ t) >>= λ p. ok (bytes p.0, p.1))
unfolding decode_fuel decode_switch
switch_digit f c t h = ground arith

read_string :
    (s rest : Bytes) (f : ℕ)
    → length s ≤ max_alloc
    → decode_fuel (suc f) (encode_string s ++ rest) ≡ ok (bytes s, rest)
read_string s rest f h =
    let (c, t, e, d) = encode_string-cons s in
    let whole : encode_string s ++ rest ≡ c ∷ (t ++ rest) = ap (λ w. w ++ rest) e in
    ap (decode_fuel (suc f)) whole
    ∙ switch_digit f c (t ++ rest) (ground arith)
    ∙ ap (λ w. decode_string w >>= λ p. ok (bytes p.0, p.1)) (sym whole)
    ∙ ap (λ m. m >>= λ p. ok (bytes p.0, p.1)) (decode_string-encode_string s rest h)

pub string-Reads : (s : Bytes) → length s ≤ max_alloc → Reads (encode_string s) (bytes s)
string-Reads s h = record {
  starts = encode_string-Starts s;
  reads = λ f rest lt. with_fuel f rest lt;
}
  where
    with_fuel :
        (f : ℕ) (rest : Bytes)
        → length (encode_string s) < f
        → decode_fuel f (encode_string s ++ rest) ≡ ok (bytes s, rest)
    with_fuel zero rest lt = absurd (omega arith)
    with_fuel (suc f) rest lt = read_string s rest f h

read_number :
    (z : ℤ) (f : ℕ) (rest : Bytes)
    → IsInt64 z
    → length (wrap_int (format_int z)) < f
    → decode_fuel f (wrap_int (format_int z) ++ rest) ≡ ok (int64 z, rest)
unfolding decode_fuel decode_switch
read_number z zero rest h lt = absurd (omega arith)
read_number z (suc f) rest h lt =
    rw (append_assoc (format_int z) (b'e' ∷ []) rest, decode_int-format_int z rest h)

pub number-Reads : (z : ℤ) → IsInt64 z → Reads (wrap_int (format_int z)) (int64 z)
number-Reads z h = record {
  starts = λ e. absurd (omega arith);
  reads = λ f rest. read_number z f rest h;
}

read_list :
    (ps : List Piece) (f : ℕ) (rest : Bytes)
    → All (λ p. Reads p.text p.value) ps
    → length (texts ps ++ (b'e' ∷ [])) < f
    → decode_fuel (suc f) (b'l' ∷ (texts ps ++ (b'e' ∷ [])) ++ rest) ≡ ok (list (values ps), rest)
unfolding decode_fuel decode_switch append_items
read_list ps f rest h lt =
    let lens = length-append (texts ps) (b'e' ∷ []) in
    rw (
      append_assoc (texts ps) (b'e' ∷ []) rest,
      decode_list-texts ps f f nil rest h (omega arith) (omega arith),
    )

pub list-Reads :
    (ps : List Piece)
    → All (λ p. Reads p.text p.value) ps
    → Reads (b'l' ∷ (texts ps ++ (b'e' ∷ []))) (list (values ps))
list-Reads ps h = record { starts = λ e. absurd (omega arith); reads = with_fuel }
  where
    with_fuel :
        (f : ℕ) (rest : Bytes)
        → length (b'l' ∷ (texts ps ++ (b'e' ∷ []))) < f
        → decode_fuel f (b'l' ∷ (texts ps ++ (b'e' ∷ [])) ++ rest) ≡ ok (list (values ps), rest)
    with_fuel zero rest lt = absurd (omega arith)
    with_fuel (suc f) rest lt = read_list ps f rest h (omega arith)

part_less : Part → Part → Bool
part_less a b = bytes_less a.key b.key

sort_fields :
    (ps : List Part) → sort_by field_less (map field ps) ≡ map field (sort_by part_less ps)
unfolding field_less part_less
sort_fields = map-sort_by field part_less field_less (λ a b. refl)

sort_pairs : (ps : List Part) → sort_by pair_less (map pair ps) ≡ map pair (sort_by part_less ps)
unfolding pair_less part_less
sort_pairs = map-sort_by pair part_less pair_less (λ a b. refl)

sort-Apart :
    (ps : List Part)
    → Pairwise Apart (map pair ps)
    → Pairwise Apart (map pair (sort_by part_less ps))
sort-Apart ps d =
    subst (Pairwise Apart) (sort_pairs ps)
      (sort_by-Pairwise pair_less Apart (λ a b h e. h (sym e)) (map pair ps) d)

read_map :
    (ps : List Part) (f : ℕ) (rest : Bytes)
    → All IsGood ps
    → Pairwise Apart (map pair ps)
    → length (write_fields (map field ps) ++ (b'e' ∷ [])) < f
    → decode_fuel (suc f) (b'd' ∷ (write_fields (map field ps) ++ (b'e' ∷ [])) ++ rest)
      ≡ ok (dict (from_list (map pair ps)), rest)
unfolding decode_fuel decode_switch from_list
read_map ps f rest g d lt =
    let lens = length-append (write_fields (map field ps)) (b'e' ∷ []) in
    rw (
      append_assoc (write_fields (map field ps)) (b'e' ∷ []) rest,
      decode_dict-write_fields ps f f [] rest g d (omega arith) (omega arith),
    )

map_text-Reads :
    (ps : List Part)
    → All IsGood ps
    → Pairwise Apart (map pair ps)
    → Reads (b'd' ∷ (write_fields (map field ps) ++ (b'e' ∷ []))) (dict (from_list (map pair ps)))
map_text-Reads ps g d = record { starts = λ e. absurd (omega arith); reads = with_fuel }
  where
    with_fuel :
        (f : ℕ) (rest : Bytes)
        → length (b'd' ∷ (write_fields (map field ps) ++ (b'e' ∷ []))) < f
        → decode_fuel f (b'd' ∷ (write_fields (map field ps) ++ (b'e' ∷ [])) ++ rest)
          ≡ ok (dict (from_list (map pair ps)), rest)
    with_fuel zero rest lt = absurd (omega arith)
    with_fuel (suc f) rest lt = read_map ps f rest g d (omega arith)

pub map-Reads :
    (ps : List Part)
    → All IsGood ps
    → Pairwise Apart (map pair ps)
    → Reads (write_map (map field ps)) (dict (from_list (sort_by pair_less (map pair ps))))
unfolding write_map
map-Reads ps g d =
    rw (sort_fields ps, sort_pairs ps)
      (map_text-Reads (sort_by part_less ps) (sort_by-All part_less IsGood ps g) (sort-Apart ps d))
