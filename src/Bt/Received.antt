-- ===== src/Bt/Received.antt =====
-- What the other side makes of an encoded value, and which values can be encoded.
use bt_dht_crawler.Prelude.{◌^◌, ◌≤◌, ◌<◌, ◌≢◌, Bool, List, [], ◌∷◌, Bytes, length}
use bt_dht_crawler.Prelude.Int.{pos, IsInt64}
use bt_dht_crawler.Prelude.Sort.{sort_by}
use bt_dht_crawler.Bt.Value.{
  Value, Items, Dict, str, bytes, int, int64, uint16, uint32, list, dict, other, nil, cons, empty,
  entry, from_list,
}
use bt_dht_crawler.Bt.Encode.{bytes_less}
use bt_dht_crawler.Bt.Decode.{max_alloc}

abbrev pub Pair : Type 0
Pair = Bytes × Value

unfoldable pub pair_less : Pair → Pair → Bool
pair_less a b = bytes_less a.0 b.0

-- Texts and byte slices arrive as byte slices, numbers of every type as `int64`, and a map as one
-- with the same entries, which are built in the order of the keys.
unfoldable mutual
  unfolding sort_by pair_less from_list

  pub received : Value → Value
  received (str s) = bytes s
  received (bytes s) = bytes s
  received (int z) = int64 z
  received (int64 z) = int64 z
  received (uint16 n) = int64 (pos n)
  received (uint32 n) = int64 (pos n)
  received (list xs) = list (received_items xs)
  received (dict d) = dict (from_list (sort_by pair_less (received_entries d)))
  received other = other

  pub received_items : Items → Items
  received_items nil = nil
  received_items (cons x xs) = cons (received x) (received_items xs)

  pub received_entries : Dict → List Pair
  received_entries empty = []
  received_entries (entry k v d) = (k, received v) ∷ received_entries d

abbrev pub Lacks : Bytes → Dict → Type 0
Lacks k empty = Unit {0}
Lacks k (entry j v d) = (k ≢ j) × Lacks k d

-- A value of the supported types: numbers in the range of their type, texts that fit into memory,
-- and each key of a map once.
abbrev mutual
  pub IsEncodable : Value → Type 0
  IsEncodable (str s) = length s ≤ max_alloc
  IsEncodable (bytes s) = length s ≤ max_alloc
  IsEncodable (int z) = IsInt64 z
  IsEncodable (int64 z) = IsInt64 z
  IsEncodable (uint16 n) = n < 2 ^ 16
  IsEncodable (uint32 n) = n < 2 ^ 32
  IsEncodable (list xs) = AreEncodable xs
  IsEncodable (dict d) = HasEncodable d
  IsEncodable other = ⊥

  pub AreEncodable : Items → Type 0
  AreEncodable nil = Unit {0}
  AreEncodable (cons x xs) = IsEncodable x × AreEncodable xs

  pub HasEncodable : Dict → Type 0
  HasEncodable empty = Unit {0}
  HasEncodable (entry k v d) = (length k ≤ max_alloc) × IsEncodable v × Lacks k d × HasEncodable d
