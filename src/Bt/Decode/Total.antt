-- ===== src/Bt/Decode/Total.antt =====
-- `decode` ends on every input: the fuel that `decode_reader` gives is enough.
use bt_dht_crawler.Prelude.{
  ℕ, zero, suc, ◌<◌, [], ◌∷◌, ◌++◌, Bytes, length, length-drop, ltb, leb, ◌==◌, Outcome, Bool-cases,
  inl, inr, arith, Ends, Ends-bind, Ends-mono, Ends-if, Always,
}
use bt_dht_crawler.Bt.Decimal.Total.{parse_int-Ends}
use bt_dht_crawler.Prelude.Int.{pos_part}
use bt_dht_crawler.Bt.Decimal.{parse_int, is_digit}
use bt_dht_crawler.Bt.Value.{
  Value, Items, Dict, str, bytes, int, int64, uint16, uint32, list, dict, other, nil, empty, assign,
  push_back,
}
use bt_dht_crawler.Bt.Decode.{
  Decoder, read_int, decode_int, read_length, read_data, decode_string, decode_list, decode_dict,
  decode_switch, decode_fuel, decode_reader, max_alloc, decode, decode_top_dict, expect_dict,
}

-- A reader gets shorter.
abbrev pub Consumes : {A : Type 0} → ℕ → Outcome (A × Bytes) → Type 0
Consumes n = Ends (λ p. length p.1 < n)

read_int-Consumes : (bs buf : Bytes) → Consumes (length bs) (read_int bs buf)
unfolding read_int
read_int-Consumes [] buf = tt
read_int-Consumes (b ∷ r) buf = elim (Bool-cases (b == b'e')) [
  | inl e ↦ rw e (omega arith)
  | inr e ↦ rw e (
      Ends-mono (λ p. length p.1 < length r) (λ p. length p.1 < suc (length r))
        (read_int r (buf ++ (b ∷ []))) (λ p h. omega arith) (read_int-Consumes r (buf ++ (b ∷ []))))
]

read_length-Consumes : (bs buf : Bytes) → Consumes (length bs) (read_length bs buf)
unfolding read_length
read_length-Consumes [] buf = tt
read_length-Consumes (b ∷ r) buf = elim (Bool-cases (b == b':')) [
  | inl e ↦ rw e (omega arith)
  | inr e ↦ rw e (elim (Bool-cases (is_digit b)) [
    | inl d ↦ rw d (
        Ends-mono (λ p. length p.1 < length r) (λ p. length p.1 < suc (length r))
          (read_length r (buf ++ (b ∷ []))) (λ p h. omega arith)
          (read_length-Consumes r (buf ++ (b ∷ []))))
    | inr d ↦ rw d tt
  ])
]

read_data-Consumes : (n : ℕ) (bs : Bytes) → Consumes (suc (length bs)) (read_data n bs)
unfolding read_data
read_data-Consumes n bs = elim (Bool-cases (ltb max_alloc n)) [
  | inl e ↦ rw e tt
  | inr e ↦ rw e (elim (Bool-cases (leb n (length bs))) [
    | inl d ↦ rw d (omega (arith, length-drop n bs))
    | inr d ↦ rw d tt
  ])
]

decode_int-Consumes : (bs : Bytes) → Consumes (length bs) (decode_int bs)
unfolding decode_int
decode_int-Consumes bs =
    Ends-bind _ _ (read_int bs []) _ (read_int-Consumes bs [])
      λ p h. Ends-bind _ _ (parse_int p.0) _ (parse_int-Ends p.0) (λ z _. h)

pub decode_string-Consumes : (bs : Bytes) → Consumes (length bs) (decode_string bs)
unfolding decode_string
decode_string-Consumes bs = Ends-bind _ _ (read_length bs []) _ (read_length-Consumes bs []) λ p h.
    Ends-bind _ _ (parse_int p.0) _ (parse_int-Ends p.0) λ z _.
      Ends-mono _ _ (read_data (pos_part z) p.1) (λ q k. omega arith)
        (read_data-Consumes (pos_part z) p.1)

-- What the loops ask of the decoder that they call.
abbrev IsGood : ℕ → Decoder → Type 0
IsGood n dec = (bs : Bytes) → length bs < n → Consumes (length bs) (dec bs)

decode_list-Consumes :
    (dec : Decoder) (n k : ℕ) (bs : Bytes) (acc : Items)
    → IsGood n dec
    → length bs < n
    → length bs < k
    → Consumes (length bs) (decode_list dec k bs acc)
unfolding decode_list
decode_list-Consumes dec n zero bs acc good h lt = absurd (omega arith)
decode_list-Consumes dec n (suc k) [] acc good h lt = tt
decode_list-Consumes dec n (suc k) (b ∷ r) acc good h lt = elim (Bool-cases (b == b'e')) [
  | inl e ↦ rw e (omega arith)
  | inr e ↦ rw e (
      Ends-bind _ _ (dec (b ∷ r)) _ (good (b ∷ r) h) λ p q.
        Ends-mono _ _ (decode_list dec k p.1 (push_back acc p.0)) (λ a w. omega arith)
          (decode_list-Consumes dec n k p.1 (push_back acc p.0) good (omega arith) (omega arith)))
]

decode_dict-Consumes :
    (dec : Decoder) (n k : ℕ) (bs : Bytes) (acc : Dict)
    → IsGood n dec
    → length bs < n
    → length bs < k
    → Consumes (length bs) (decode_dict dec k bs acc)
unfolding decode_dict
decode_dict-Consumes dec n zero bs acc good h lt = absurd (omega arith)
decode_dict-Consumes dec n (suc k) [] acc good h lt = tt
decode_dict-Consumes dec n (suc k) (b ∷ r) acc good h lt = elim (Bool-cases (b == b'e')) [
  | inl e ↦ rw e (omega arith)
  | inr e ↦ rw e (
      Ends-bind _ _ (decode_string (b ∷ r)) _ (decode_string-Consumes (b ∷ r)) λ key s.
        Ends-bind _ _ (dec key.1) _ (good key.1 (omega arith)) λ p q.
          Ends-mono _ _ (decode_dict dec k p.1 (assign key.0 p.0 acc)) (λ a w. omega arith)
            (decode_dict-Consumes dec n k p.1 (assign key.0 p.0 acc) good (omega arith)
              (omega arith)))
]

decode_switch-Consumes :
    (dec : Decoder) (k : ℕ) (bs : Bytes)
    → IsGood k dec
    → length bs < suc k
    → Consumes (length bs) (decode_switch dec k bs)
unfolding decode_switch
decode_switch-Consumes dec k [] good h = tt
decode_switch-Consumes dec k (b ∷ r) good h =
    Ends-if _ (b == b'i') _ _
      (Ends-bind _ _ (decode_int r) _ (decode_int-Consumes r) (λ p w. omega arith))
      (Ends-if _ (b == b'l') _ _
        (Ends-bind _ _ (decode_list dec k r nil) _
          (decode_list-Consumes dec k k r nil good (omega arith) (omega arith))
          (λ p w. omega arith))
        (Ends-if _ (b == b'd') _ _
          (Ends-bind _ _ (decode_dict dec k r empty) _
            (decode_dict-Consumes dec k k r empty good (omega arith) (omega arith))
            (λ p w. omega arith))
          (Ends-if _ (is_digit b) _ _
            (Ends-bind _ _ (decode_string (b ∷ r)) _ (decode_string-Consumes (b ∷ r)) (λ p w. w))
            tt)))

-- With more fuel than bytes the decoder ends, and each success consumes a byte at least.
pub decode_fuel-Consumes :
    (f : ℕ) (bs : Bytes) → length bs < f → Consumes (length bs) (decode_fuel f bs)
unfolding decode_fuel
decode_fuel-Consumes zero bs h = absurd (omega arith)
decode_fuel-Consumes (suc f) bs h =
    decode_switch-Consumes (decode_fuel f) f bs (decode_fuel-Consumes f) h

-- `decode` ends on every input: the model's fuel never runs out, and on success the reader has moved
-- on by at least one byte.
pub decode_reader-Consumes : (bs : Bytes) → Consumes (length bs) (decode_reader bs)
unfolding decode_reader
decode_reader-Consumes bs = decode_fuel-Consumes (suc (length bs)) bs (omega arith)

pub decode_top_dict-Ends : (bs : Bytes) → Ends Always (decode_top_dict bs)
unfolding decode_top_dict decode
decode_top_dict-Ends bs =
    Ends-bind Always Always (decode bs) _
      (Ends-bind _ Always (decode_reader bs) _ (decode_reader-Consumes bs) (λ p h. tt))
      (λ v _. any v)
  where
    any : (v : Value) → Ends Always (expect_dict v)
    any (str s) = unfold expect_dict in tt
    any (bytes s) = unfold expect_dict in tt
    any (int z) = unfold expect_dict in tt
    any (int64 z) = unfold expect_dict in tt
    any (uint16 n) = unfold expect_dict in tt
    any (uint32 n) = unfold expect_dict in tt
    any (list xs) = unfold expect_dict in tt
    any (dict d) = unfold expect_dict in tt
    any other = unfold expect_dict in tt
