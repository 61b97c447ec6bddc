-- ===== src/Bt/RoundTrip/Dicts.antt =====
-- The loop of `decodeDict` over the fields that `encode` writes.
use bt_dht_crawler.Prelude.{
  ℕ, zero, suc, ◌+◌, ◌≤◌, ◌<◌, ◌≡◌, ◌≢◌, refl, sym, ap, subst, List, [], ◌∷◌, ◌++◌, append_assoc,
  append-nil, map, Bytes, bytes_eq, bytes_eq→eq, length, length-append, All, Pairwise,
  Pairwise-middle, ◌==◌, ok, ◌>>=◌, Bool-cases, inl, inr, arith,
}
use mathlib.Core.Path.{◌≡⟨◌⟩◌, ◌∎}
use bt_dht_crawler.Bt.Value.{Value, Dict, entry, assign, from_list}
use bt_dht_crawler.Bt.Encode.{Field, encode_string, write_fields}
use bt_dht_crawler.Bt.Received.{Pair}
use bt_dht_crawler.Bt.Decode.{Decoder, max_alloc, decode_string, decode_dict, decode_fuel}
use bt_dht_crawler.Bt.RoundTrip.Strings.{decode_string-encode_string, encode_string-cons}
use bt_dht_crawler.Bt.RoundTrip.Loops.{Starts, Reads, Starts-pos}

-- An entry of a map, its value as a text and as what is read from that.
pub record Part : Type 0 where
  pub key : Bytes
  pub text : Bytes
  pub value : Value

abbrev pub field : Part → Field
field p = (p.key, p.text)

abbrev pub pair : Part → Pair
pair p = (p.key, p.value)

pub record IsGood (p : Part) : Type 0 where
  pub fits : length p.key ≤ max_alloc
  pub reads : Reads p.text p.value

-- The keys differ.
abbrev pub Apart : Pair → Pair → Type 0
Apart a b = a.0 ≢ b.0

pub assign-from_list :
    (k : Bytes) (v : Value) (ps : List Pair)
    → All (λ p. Apart p (k, v)) ps
    → assign k v (from_list ps) ≡ from_list (ps ++ ((k, v) ∷ []))
unfolding assign from_list
assign-from_list k v [] h = refl
assign-from_list k v ((j, w) ∷ ps) h = elim (Bool-cases (bytes_eq j k)) [
  | inl e ↦ absurd (h.0 (bytes_eq→eq j k e))
  | inr e ↦ rw e (ap (entry j w) (assign-from_list k v ps h.1))
]

pub encode_string-Starts : (s : Bytes) → Starts (encode_string s)
encode_string-Starts s = let (c, t, e, d) = encode_string-cons s in rw e (λ q. absurd (omega arith))

dict_step :
    (dec : Decoder) (k : ℕ) (bs s : Bytes) (acc : Dict)
    → Starts bs
    → decode_dict dec (suc k) (bs ++ s) acc ≡ (
        decode_string (bs ++ s) >>= λ key.
        dec key.1 >>= λ p. decode_dict dec k p.1 (assign key.0 p.0 acc))
unfolding decode_dict
dict_step dec k [] s acc h = absurd h
dict_step dec k (b ∷ r) s acc h = elim (Bool-cases (b == b'e')) [
  | inl e ↦ absurd (h (ground arith))
  | inr e ↦ rw e
]

write_fields-cons :
    (p : Part) (ps : List Part) (s : Bytes)
    → write_fields (map field (p ∷ ps)) ++ s
      ≡ encode_string p.key ++ (p.text ++ (write_fields (map field ps) ++ s))
unfolding write_fields
write_fields-cons p ps s = simp append_assoc

length-write_fields :
    (p : Part) (ps : List Part)
    → length (write_fields (map field (p ∷ ps)))
      ≡ length (encode_string p.key) + (length p.text + length (write_fields (map field ps)))
unfolding write_fields
length-write_fields p ps = omega (
  arith,
  length-append (encode_string p.key) (p.text ++ write_fields (map field ps)),
  length-append p.text (write_fields (map field ps)),
)

-- A round reads the key, then the value, and writes the entry.
dict_round :
    (p : Part) (f k : ℕ) (acc : Dict) (s : Bytes)
    → IsGood p
    → length p.text < f
    → decode_dict (decode_fuel f) (suc k) (encode_string p.key ++ (p.text ++ s)) acc
      ≡ decode_dict (decode_fuel f) k s (assign p.key p.value acc)
dict_round p f k acc s g lf = rw (
  dict_step (decode_fuel f) k (encode_string p.key) (p.text ++ s) acc (encode_string-Starts p.key),
  decode_string-encode_string p.key (p.text ++ s) g.fits,
  g.reads.reads f s lf,
)

pub decode_dict-write_fields :
    (ps : List Part) (f k : ℕ) (acc : List Pair) (rest : Bytes)
    → All IsGood ps
    → Pairwise Apart (acc ++ map pair ps)
    → length (write_fields (map field ps)) < f
    → length (write_fields (map field ps)) < k
    → decode_dict (decode_fuel f) k (write_fields (map field ps) ++ (b'e' ∷ rest)) (from_list acc)
      ≡ ok (from_list (acc ++ map pair ps), rest)
decode_dict-write_fields ps f zero acc rest g d lf lk = absurd (omega arith)
decode_dict-write_fields [] f (suc k) acc rest g d lf lk =
    unfold write_fields decode_dict in rw (append-nil acc)
decode_dict-write_fields (p ∷ ps) f (suc k) acc rest g d lf lk =
    let lens = length-write_fields p ps in
    let s = write_fields (map field ps) ++ (b'e' ∷ rest) in
    let grown = acc ++ (pair p ∷ []) in
    let apart = Pairwise-middle Apart acc (pair p) (map pair ps) d in
    let same : acc ++ map pair (p ∷ ps) ≡ grown ++ map pair ps =
      sym (append_assoc acc (pair p ∷ []) (map pair ps)) in
    decode_dict (decode_fuel f) (suc k) (write_fields (map field (p ∷ ps)) ++ (b'e' ∷ rest))
      (from_list acc)
    ≡⟨ ap (λ t. decode_dict (decode_fuel f) (suc k) t (from_list acc))
        (write_fields-cons p ps (b'e' ∷ rest)) ⟩
      decode_dict (decode_fuel f) (suc k) (encode_string p.key ++ (p.text ++ s)) (from_list acc)
    ≡⟨ dict_round p f k (from_list acc) s g.0 (omega arith) ⟩
      decode_dict (decode_fuel f) k s (assign p.key p.value (from_list acc))
    ≡⟨ ap (decode_dict (decode_fuel f) k s) (assign-from_list p.key p.value acc apart) ⟩
      decode_dict (decode_fuel f) k s (from_list grown)
    ≡⟨ decode_dict-write_fields ps f k grown rest g.1 (subst (Pairwise Apart) same d) (omega arith)
        (omega (arith, Starts-pos (encode_string p.key) (encode_string-Starts p.key))) ⟩
      ok (from_list (grown ++ map pair ps), rest)
    ≡⟨ ap (λ t. ok (from_list t, rest)) (sym same) ⟩
      ok (from_list (acc ++ map pair (p ∷ ps)), rest) ∎
