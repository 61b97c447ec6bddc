-- ===== src/Tests/Codec.antt =====
-- Bencode, identifiers and compact addresses at concrete inputs.
use bt_dht_crawler.Prelude.{
  ◌*◌, ◌^◌, ◌≤◌, ◌<◌, ◌≡◌, refl, true, false, [], ◌∷◌, ◌++◌, Bytes, codes, ok, panic, arith, some,
}
use mathlib.Core.Option
use bt_dht_crawler.Prelude.{length, ℕ, ◌/◌, List, Outcome}
use bt_dht_crawler.Prelude.Int.{pos, negsuc}
use mathlib.Core.Option
use bt_dht_crawler.Bt.Value.{Value, Dict, str, int, list, dict, nil, cons, empty, entry, lookup}
use bt_dht_crawler.Bt.Decimal.{format}
use bt_dht_crawler.Bt.Encode.{encode}
use bt_dht_crawler.Bt.Decode.{decode_reader, decode, decode_top_dict}
use bt_dht_crawler.Bt.Decode.Total.{Consumes, decode_reader-Consumes}
use bt_dht_crawler.Bt.Received.{received, IsEncodable}
use bt_dht_crawler.Bt.RoundTrip.{decode_reader-encode}
use bt_dht_crawler.Bt.RoundTrip.Lookup.{decode_top_dict-lookup}
use bt_dht_crawler.Bt.Panic.{decode_huge}
use bt_dht_crawler.Dht.Id.{is_zero, distance, less, bucket_index, hex, from_hex, zero_id}
use bt_dht_crawler.Dht.Id.Distance.{distance_laws}
use bt_dht_crawler.Dht.Id.Order.{less_laws}
use bt_dht_crawler.Dht.Id.Bucket.{value, bucket_index_bounds}
use bt_dht_crawler.Dht.Id.Hex.{from_hex-hex}
use bt_dht_crawler.Dht.Id.{NodeId}
use bt_dht_crawler.Prelude.{min}
use bt_dht_crawler.Dht.Pool.{find_peers, all_peers}
use bt_dht_crawler.Dht.Pool.Distinct.{IsIpText, times_at, times-find_peers}
use bt_dht_crawler.Dht.Compact.{CompactPeerInfo}
use bt_dht_crawler.Dht.Compact.RoundTrip.{IsEndpoint}
use mathlib.Core.List.Perm
use bt_dht_crawler.Prelude.{◌+◌, ◌≢◌, All, map, ap₂}
use bt_dht_crawler.Dht.Id.Generate.{generate_distributed_ids}
use bt_dht_crawler.Dht.Id.Generate.Spread.{Spaced, IsRandom, generate_distributed_ids-Spaced}
use bt_dht_crawler.Dht.Compact.{
  encode_compact_peer, decode_compact_peer, encode_compact_nodes, decode_compact_nodes,
}
use bt_dht_crawler.Dht.Compact.RoundTrip.{decode_compact_nodes-encode, decode_compact_peer-encode}
use bt_dht_crawler.Tests.Samples.{
  id_a, id_b, id_a-IsNodeId, id_b-IsNodeId, zero_id-IsNodeId, node_a, node_a-IsCompact, peer_a,
  peer_a-IsEndpoint,
}

-- {"spam": -3, "a": ["xyz", {}]}, with the keys out of order.
abbrev sample_dict : Dict
sample_dict =
    entry (codes "spam") (int (negsuc 2))
      (entry (codes "a") (list (cons (str (codes "xyz")) (cons (dict empty) nil))) empty)

abbrev sample : Value
sample = dict sample_dict

sample-IsEncodable : IsEncodable sample
sample-IsEncodable =
    (omega arith, omega arith, ((λ e. cc), tt), (omega arith, (omega arith, (tt, tt)), tt, tt))

sample_text : encode sample ≡ ok (codes "d1:al3:xyzdee4:spami-3ee")
unfolding encode
sample_text = refl

decode_reader-encode_example :
    (e : Bytes) × (encode sample ≡ ok e)
    × (decode_reader (e ++ codes "rest") ≡ ok (received sample, codes "rest"))
decode_reader-encode_example = decode_reader-encode sample (codes "rest") sample-IsEncodable

decode_top_dict-lookup_example :
    (text : Bytes) × (encode sample ≡ ok text)
    × (m : Dict) × (decode_top_dict text ≡ ok m)
    × ((k : Bytes) → lookup k m ≡ Option.map received (lookup k sample_dict))
decode_top_dict-lookup_example = decode_top_dict-lookup sample_dict sample-IsEncodable

decode_reader-Consumes_example : Consumes 6 (decode_reader (codes "li-1ee"))
decode_reader-Consumes_example = decode_reader-Consumes (codes "li-1ee")

decode_huge_example : decode (format (2 ^ 50) ++ (b':' ∷ codes "x")) ≡ panic
decode_huge_example = decode_huge (2 ^ 50) (codes "x") (omega arith) (omega arith)

distance_laws_example :
    (is_zero (distance id_a id_a) ≡ true)
    × (distance id_a id_b ≡ distance id_b id_a)
    × (distance id_a id_b ≡ distance id_a zero_id → id_b ≡ zero_id)
distance_laws_example = distance_laws id_a id_b zero_id id_a-IsNodeId id_b-IsNodeId zero_id-IsNodeId

less_laws_example :
    (less id_a id_b ≡ true → less id_b id_a ≡ false)
    × (less id_a id_b ≡ false → less id_b id_a ≡ false → id_a ≡ id_b)
    × (less id_b id_a ≡ false → less zero_id id_b ≡ false → less zero_id id_a ≡ false)
less_laws_example = less_laws id_a id_b zero_id

apart_ids : is_zero (distance id_a id_b) ≡ false
unfolding is_zero distance
apart_ids = refl

bucket_index_bounds_example :
    (2 ^ bucket_index id_a id_b ≤ value (distance id_a id_b))
    × (value (distance id_a id_b) < 2 * 2 ^ bucket_index id_a id_b)
bucket_index_bounds_example = bucket_index_bounds id_a id_b id_a-IsNodeId id_b-IsNodeId apart_ids

from_hex-hex_example : from_hex (hex id_a) ≡ ok id_a
from_hex-hex_example = from_hex-hex id_a id_a-IsNodeId

decode_compact_nodes-encode_example :
    decode_compact_nodes (encode_compact_nodes (node_a ∷ node_a ∷ [])) ≡ node_a ∷ node_a ∷ []
decode_compact_nodes-encode_example =
    decode_compact_nodes-encode (node_a ∷ node_a ∷ []) (node_a-IsCompact, (node_a-IsCompact, tt))

decode_compact_peer-encode_example : decode_compact_peer (encode_compact_peer peer_a) ≡ some peer_a
decode_compact_peer-encode_example = decode_compact_peer-encode peer_a peer_a-IsEndpoint

-- A source of randomness that returns the middle of each piece.
abbrev middle : ℕ → ℕ → Outcome ℕ
middle i piece = ok (piece / 2)

middle-IsRandom : IsRandom middle
middle-IsRandom i piece h = (piece / 2, refl, omega arith)

generate_distributed_ids-Spaced_example :
    (ids : List NodeId) × (generate_distributed_ids middle (pos 4) ≡ ok ids)
    × (length ids ≡ 4)
    × Spaced (2 ^ 160 / 4) 0 ids
generate_distributed_ids-Spaced_example =
    generate_distributed_ids-Spaced middle 3 middle-IsRandom (omega arith)

-- A text of an address: each byte as a character behind the colon.
abbrev shifted : Bytes → Bytes
shifted = map (λ b. b + 59)

shifted-no_colon : (ip : Bytes) → All (λ b. b ≢ b':') (shifted ip)
shifted-no_colon [] = tt
shifted-no_colon (b ∷ ip) = ((λ e. omega arith), shifted-no_colon ip)

shifted-one_ip : (a b : Bytes) → shifted a ≡ shifted b → a ≡ b
shifted-one_ip [] [] e = refl
shifted-one_ip [] (y ∷ b) e = cc
shifted-one_ip (x ∷ a) [] e = cc
shifted-one_ip (x ∷ a) (y ∷ b) e =
    let head : x + 59 ≡ y + 59 = cc in
    let tail : shifted a ≡ shifted b = cc in
    let same : x ≡ y = omega (arith, head) in ap₂ ◌∷◌ same (shifted-one_ip a b tail)

shifted-IsIpText : IsIpText shifted
shifted-IsIpText = record {
  no_colon = λ ip h. shifted-no_colon ip;
  one_ip = λ a b h k e. shifted-one_ip a b e;
}

-- A peer with the address of `peer_a` and another port.
abbrev peer_c : CompactPeerInfo
peer_c = record { ip = peer_a.ip; port = 6882 }

peer_c-IsEndpoint : IsEndpoint peer_a.ip 6882
peer_c-IsEndpoint = record { four = refl; port_fits = omega arith }

abbrev searched : ℕ → List CompactPeerInfo
searched n = peer_a ∷ peer_c ∷ peer_a ∷ []

times-find_peers_example :
    times_at peer_a.ip 6882 (find_peers shifted searched (λ ns. ns) (1 ∷ 2 ∷ []))
    ≡ min 1 (times_at peer_a.ip 6882 (all_peers searched (1 ∷ 2 ∷ [])))
times-find_peers_example =
    times-find_peers shifted searched (λ ns. ns) (1 ∷ 2 ∷ []) peer_a.ip 6882 shifted-IsIpText
      (λ ns. Perm.refl ns) (λ n. (peer_a-IsEndpoint, (peer_c-IsEndpoint, (peer_a-IsEndpoint, tt))))
      peer_c-IsEndpoint
