-- ===== src/Bt/RoundTrip/Lookup.antt =====
-- A map that is sent and received holds under each key what the sent one does.
use bt_dht_crawler.Prelude.{
  ◌≡◌, refl, sym, ap, ◌∙◌, false, List, [], ◌∷◌, Bytes, bytes_eq, bytes_eq→eq, if◌then◌else◌,
  Bool-cases, inl, inr, arith, some, ok, append-nil,
}
use mathlib.Core.Option
use bt_dht_crawler.Prelude.Sort.{sort_by, insert_by}
use bt_dht_crawler.Bt.Value.{dict, Dict, empty, entry, lookup, from_list}
use bt_dht_crawler.Bt.Encode.{encode, bytes_less}
use bt_dht_crawler.Bt.Decode.{decode, decode_reader, decode_top_dict}
use bt_dht_crawler.Bt.RoundTrip.{decode_reader-encode}
use bt_dht_crawler.Bt.Received.{Pair, pair_less, received, received_entries, IsEncodable}

pub bytes_less_irrefl : (a : Bytes) → bytes_less a a ≡ false
unfolding bytes_less
bytes_less_irrefl [] = refl
bytes_less_irrefl (x ∷ xs) = ground (arith, bytes_less_irrefl xs)

lookup-insert_by :
    (k : Bytes) (p : Pair) (ps : List Pair)
    → lookup k (from_list (insert_by pair_less p ps))
      ≡ (if bytes_eq p.0 k then some p.1 else lookup k (from_list ps))
unfolding lookup from_list insert_by pair_less
lookup-insert_by k p [] = refl
lookup-insert_by k p (q ∷ ps) = elim (Bool-cases (bytes_less q.0 p.0)) [
  | inl e ↦
      rw (e, lookup-insert_by k p ps)
        (elim (Bool-cases (bytes_eq p.0 k)) [
          | inl a ↦ rw a (elim (Bool-cases (bytes_eq q.0 k)) [
            | inl b ↦
                let same : q.0 ≡ p.0 = bytes_eq→eq q.0 k b ∙ sym (bytes_eq→eq p.0 k a) in
                absurd (cc (e, ap (λ t. bytes_less t p.0) same, bytes_less_irrefl p.0))
            | inr b ↦ rw b
          ])
          | inr a ↦ rw a
        ])
  | inr e ↦ rw e
]

lookup-sort_by :
    (k : Bytes) (ps : List Pair)
    → lookup k (from_list (sort_by pair_less ps)) ≡ lookup k (from_list ps)
unfolding sort_by from_list lookup
lookup-sort_by k [] = refl
lookup-sort_by k (p ∷ ps) = lookup-insert_by k p (sort_by pair_less ps) ∙ (rw (lookup-sort_by k ps))

lookup-received_entries :
    (k : Bytes) (d : Dict)
    → lookup k (from_list (received_entries d)) ≡ Option.map received (lookup k d)
unfolding lookup from_list received
lookup-received_entries k empty = refl
lookup-received_entries k (entry j v d) = elim (Bool-cases (bytes_eq j k)) [
  | inl e ↦ rw e
  | inr e ↦ rw e (lookup-received_entries k d)
]

abbrev pub received_map : Dict → Dict
received_map d = from_list (sort_by pair_less (received_entries d))

-- Looking a key up in the received map finds what the value under that key is received as.
pub lookup-received_map :
    (k : Bytes) (d : Dict) → lookup k (received_map d) ≡ Option.map received (lookup k d)
lookup-received_map k d = lookup-sort_by k (received_entries d) ∙ lookup-received_entries k d

-- A map of the supported types, with each key once, is sent and read back as a map: its encoding succeeds, the text
-- is decoded as a dictionary, and looking any key up there finds what the sent map has under that key, as the other
-- side receives it, or nothing if it has none.
pub decode_top_dict-lookup :
    (d : Dict)
    → IsEncodable (dict d)
    → (text : Bytes) × (encode (dict d) ≡ ok text)
      × (m : Dict) × (decode_top_dict text ≡ ok m)
      × ((k : Bytes) → lookup k m ≡ Option.map received (lookup k d))
unfolding decode_top_dict decode
decode_top_dict-lookup d h =
    let (text, sent, read) = decode_reader-encode (dict d) [] h in
    let whole : decode_reader text ≡ ok (received (dict d), []) =
      ap decode_reader (sym (append-nil text)) ∙ read in
    (
      text,
      sent,
      received_map d,
      rw (decode_top_dict, whole) (unfold received in refl),
      λ k. lookup-received_map k d,
    )
