-- ===== src/Bt/Encode.antt =====
-- internal/bt/bencode.go: `Encode` and `encode`.
use bt_dht_crawler.Prelude.{
  Bool, true, false, List, [], ◌∷◌, ◌++◌, Bytes, length, ltb, if◌then◌else◌, Outcome, ok, err,
  Error, ◌>>=◌,
}
use bt_dht_crawler.Prelude.Sort.{sort_by}
use bt_dht_crawler.Prelude.Int.{pos}
use bt_dht_crawler.Bt.Decimal.{format, format_int}
use bt_dht_crawler.Bt.Value.{
  Value, Items, Dict, str, bytes, int, int64, uint16, uint32, list, dict, other, nil, cons, empty,
  entry,
}

-- Go's `<` on strings.
unfoldable pub bytes_less : Bytes → Bytes → Bool
bytes_less a [] = false
bytes_less [] (y ∷ ys) = true
bytes_less (x ∷ xs) (y ∷ ys) = if ltb x y then true else if ltb y x then false else bytes_less xs ys

-- An entry of a map, with its value already encoded.
abbrev pub Field : Type 0
Field = Bytes × Bytes

unfoldable pub field_less : Field → Field → Bool
unfolding bytes_less
field_less a b = bytes_less a.0 b.0

-- `%d:%s`
unfoldable pub encode_string : Bytes → Bytes
unfolding format
encode_string s = format (length s) ++ (b':' ∷ s)

-- `i%de`
abbrev pub wrap_int : Bytes → Bytes
wrap_int s = b'i' ∷ (s ++ (b'e' ∷ []))

-- The loop over the sorted keys.
unfoldable pub write_fields : List Field → Bytes
unfolding encode_string
write_fields [] = []
write_fields ((k, v) ∷ fs) = encode_string k ++ (v ++ write_fields fs)

-- `sort.Strings(keys)` and the loop; as the keys differ, sorting the entries by key is the same.
unfoldable pub write_map : List Field → Bytes
unfolding write_fields sort_by field_less
write_map fs = b'd' ∷ (write_fields (sort_by field_less fs) ++ (b'e' ∷ []))

-- What reaches the buffer is returned if no part fails, and dropped otherwise.
unfoldable mutual
  unfolding write_map encode_string format_int

  pub encode : Value → Outcome Bytes
  encode (str s) = ok (encode_string s)
  encode (bytes s) = ok (encode_string s)
  encode (int z) = ok (wrap_int (format_int z))
  encode (int64 z) = ok (wrap_int (format_int z))
  encode (uint16 n) = ok (wrap_int (format_int (pos n)))
  encode (uint32 n) = ok (wrap_int (format_int (pos n)))
  encode (list xs) = encode_items xs >>= λ body. ok (b'l' ∷ (body ++ (b'e' ∷ [])))
  encode (dict d) = encode_entries d >>= λ fs. ok (write_map fs)
  encode other = err Error.unsupported_type

  pub encode_items : Items → Outcome Bytes
  encode_items nil = ok []
  encode_items (cons x xs) = encode x >>= λ e. encode_items xs >>= λ es. ok (e ++ es)

  pub encode_entries : Dict → Outcome (List Field)
  encode_entries empty = ok []
  encode_entries (entry k v d) = encode v >>= λ e. encode_entries d >>= λ fs. ok ((k, e) ∷ fs)
