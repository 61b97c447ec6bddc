-- ===== src/Bt/RoundTrip.antt =====
-- Decoding undoes encoding.
pub mod Strings
pub mod Loops
pub mod Dicts
pub mod Kinds
pub mod Lookup
use bt_dht_crawler.Prelude.{
  ℕ, zero, suc, ◌+◌, ◌-◌, ◌*◌, ◌^◌, ◌≤◌, ◌<◌, ◌≡◌, ◌≢◌, refl, sym, ap, ap₂, ◌∙◌, subst, Bool, true,
  false, List, [], ◌∷◌, ◌++◌, append_assoc, append-nil, map, Bytes, bytes_eq, bytes_eq→eq, length,
  length-append, take, drop, take-append, drop-append, All, All-append, Pairwise, Pairwise-middle,
  ltb, leb, ◌==◌, if◌then◌else◌, Outcome, ok, err, panic, Error, ◌>>=◌, Bool-cases, inl, inr, ◌⊎◌,
  arith, Option, none, some,
}
use bt_dht_crawler.Prelude.Int.{ℤ, pos, IsInt64}
use bt_dht_crawler.Prelude.Sort.{sort_by, insert_by}
use bt_dht_crawler.Bt.Value.{
  Value, Items, Dict, str, bytes, int, int64, uint16, uint32, list, dict, other, nil, cons, empty,
  entry, lookup, from_list,
}
use bt_dht_crawler.Bt.Decimal.{format_int}
use bt_dht_crawler.Bt.Encode.{
  Field, encode, encode_items, encode_entries, encode_string, write_map, wrap_int,
}
use bt_dht_crawler.Bt.Received.{
  Pair, pair_less, received, received_items, received_entries, IsEncodable, AreEncodable,
  HasEncodable, Lacks,
}
use bt_dht_crawler.Bt.Decode.{decode_fuel, decode_reader, decode}
use Loops.{Reads, Piece, texts, values}
use Dicts.{Part, IsGood, field, pair, Apart}
use Kinds.{string-Reads, number-Reads, list-Reads, map-Reads}

-- The text of a value, and that it reads as what the other side receives.
abbrev Sent : Value → Type 0
Sent v = (e : Bytes) × (encode v ≡ ok e) × Reads e (received v)

abbrev SentItems : Items → Type 0
SentItems xs =
    (ps : List Piece) × (encode_items xs ≡ ok (texts ps))
    × (received_items xs ≡ values ps)
    × All (λ p. Reads p.text p.value) ps

abbrev SentEntries : Dict → Type 0
SentEntries d =
    (ps : List Part) × (encode_entries d ≡ ok (map field ps))
    × (received_entries d ≡ map pair ps)
    × All IsGood ps

list-Sent : (xs : Items) → SentItems xs → Sent (list xs)
unfolding encode received
list-Sent xs (ps, e, r, h) = (b'l' ∷ (texts ps ++ (b'e' ∷ [])), rw e refl, rw r (list-Reads ps h))

dict-Sent : (d : Dict) → SentEntries d → Pairwise Apart (received_entries d) → Sent (dict d)
dict-Sent d (ps, e, r, h) apart = (
  write_map (map field ps),
  unfold encode in rw e refl,
  unfold received in rw r (map-Reads ps h (subst (Pairwise Apart) r apart)),
)

cons-SentItems : (x : Value) (xs : Items) → Sent x → SentItems xs → SentItems (cons x xs)
unfolding encode received texts values
cons-SentItems x xs (e, ex, h) (ps, es, r, hs) =
    (record { text = e; value = received x } ∷ ps, rw (ex, es) refl, rw r refl, (h, hs))

entry-SentEntries :
    (k : Bytes) (v : Value) (d : Dict)
    → length k ≤ 2 ^ 48
    → Sent v
    → SentEntries d
    → SentEntries (entry k v d)
unfolding encode received
entry-SentEntries k v d fits (e, ev, h) (ps, es, r, hs) = (
  record { key = k; text = e; value = received v } ∷ ps,
  rw (ev, es) refl,
  rw r refl,
  (record { fits = fits; reads = h }, hs),
)

Apart-of_Lacks :
    (k : Bytes) (v : Value) (d : Dict) → Lacks k d → All (Apart (k, v)) (received_entries d)
unfolding received
Apart-of_Lacks k v empty h = tt
Apart-of_Lacks k v (entry j w d) h = (h.0, Apart-of_Lacks k v d h.1)

-- The keys of an encodable map differ.
received-Apart : (d : Dict) → HasEncodable d → Pairwise Apart (received_entries d)
unfolding received
received-Apart empty h = tt
received-Apart (entry k v d) h = (Apart-of_Lacks k (received v) d h.2, received-Apart d h.3)

mutual
  unfolding encode received texts values

  value-Sent : (v : Value) → IsEncodable v → Sent v
  value-Sent (str s) h = (encode_string s, refl, string-Reads s h)
  value-Sent (bytes s) h = (encode_string s, refl, string-Reads s h)
  value-Sent (int z) h = (wrap_int (format_int z), refl, number-Reads z h)
  value-Sent (int64 z) h = (wrap_int (format_int z), refl, number-Reads z h)
  value-Sent (uint16 n) h =
      (wrap_int (format_int (pos n)), refl, number-Reads (pos n) (omega arith))
  value-Sent (uint32 n) h =
      (wrap_int (format_int (pos n)), refl, number-Reads (pos n) (omega arith))
  value-Sent (list xs) h = list-Sent xs (items-Sent xs h)
  value-Sent (dict d) h = dict-Sent d (entries-Sent d h) (received-Apart d h)
  value-Sent other h = absurd h

  items-Sent : (xs : Items) → AreEncodable xs → SentItems xs
  items-Sent nil h = ([], refl, refl, tt)
  items-Sent (cons x xs) h = cons-SentItems x xs (value-Sent x h.0) (items-Sent xs h.1)

  entries-Sent : (d : Dict) → HasEncodable d → SentEntries d
  entries-Sent empty h = ([], refl, refl, tt)
  entries-Sent (entry k v d) h = entry-SentEntries k v d h.0 (value-Sent v h.1) (entries-Sent d h.3)

-- Encoding succeeds on a value of the supported types, with numbers in range, texts that fit into
-- memory and each key of a map once; and reading the text, with any bytes behind it, gives the
-- value that the other side receives, its maps sorted by key, and leaves those bytes in the
-- reader.
pub decode_reader-encode :
    (v : Value) (rest : Bytes)
    → IsEncodable v
    → (e : Bytes) × (encode v ≡ ok e) × (decode_reader (e ++ rest) ≡ ok (received v, rest))
unfolding decode_reader
decode_reader-encode v rest h =
    let (e, ev, r) = value-Sent v h in
    (e, ev, r.reads (suc (length (e ++ rest))) rest (omega (arith, length-append e rest)))
