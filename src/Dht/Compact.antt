-- ===== src/Dht/Compact.antt =====
-- internal/dht/krpc.go: the compact forms of nodes and peers.
pub mod RoundTrip
use bt_dht_crawler.Prelude.{
  ℕ, zero, suc, ◌+◌, ◌-◌, ◌*◌, ◌^◌, ◌≤◌, ◌<◌, ◌≡◌, ◌≢◌, refl, sym, ap, ap₂, ◌∙◌, subst, Bool, true,
  false, not, ◌&&◌, ◌||◌, ◌/◌, ◌%◌, List, [], ◌∷◌, ◌++◌, append_assoc, append-nil, map, Bytes,
  bytes_eq, bytes_eq→eq, eq→bytes_eq, bytes_eq_refl, Option-cases, length, length-append, take,
  drop, take-append, drop-append, All, All-append, Pairwise, Pairwise-middle, ltb, leb, ◌==◌,
  if◌then◌else◌, Outcome, ok, err, panic, Error, ◌>>=◌, Bool-cases, inl, inr, ◌⊎◌, arith, Option,
  none, some,
}
use bt_dht_crawler.Prelude.Lists.{replicate}
use bt_dht_crawler.Dht.Id.{NodeId, IsNodeId, id_length}

-- `net.IP` is a slice of 4 or 16 bytes, or of any other length if it is not valid. A port is a Go
-- `int`; a negative one does not occur.
pub record CompactNodeInfo : Type 0 where
  pub id : NodeId
  pub ip : Bytes
  pub port : ℕ

pub record CompactPeerInfo : Type 0 where
  pub ip : Bytes
  pub port : ℕ

-- The prefix of an IPv4 address in 16 bytes.
abbrev v4_prefix : Bytes
v4_prefix = 0 ∷ 0 ∷ 0 ∷ 0 ∷ 0 ∷ 0 ∷ 0 ∷ 0 ∷ 0 ∷ 0 ∷ 255 ∷ 255 ∷ []

-- `net.IP.To4`; `nil` is the empty slice.
unfoldable pub to4 : Bytes → Bytes
to4 ip =
    if length ip == 4
    then ip
    else if (length ip == 16) && bytes_eq (take 12 ip) v4_prefix
    then drop 12 ip
    else []

-- `copy` into a zeroed field of n bytes.
unfoldable pub copy_into : ℕ → Bytes → Bytes
copy_into zero bs = []
copy_into (suc n) [] = 0 ∷ copy_into n []
copy_into (suc n) (b ∷ bs) = b ∷ copy_into n bs

-- `binary.BigEndian.PutUint16` of `uint16(port)`.
unfoldable pub put_uint16 : ℕ → Bytes
put_uint16 n = n % 2 ^ 16 / 256 ∷ n % 256 ∷ []

-- `binary.BigEndian.Uint16`
unfoldable pub get_uint16 : Bytes → ℕ
get_uint16 (a ∷ b ∷ _) = a * 256 + b
get_uint16 _ = 0

-- `EncodeCompactPeer`
unfoldable pub encode_compact_peer : CompactPeerInfo → Bytes
unfolding copy_into put_uint16 to4
encode_compact_peer p = copy_into 4 (to4 p.ip) ++ put_uint16 p.port

-- `DecodeCompactPeer`
unfoldable pub decode_compact_peer : Bytes → Option CompactPeerInfo
unfolding get_uint16
decode_compact_peer bs =
    if length bs == 6 then some (record { ip = take 4 bs; port = get_uint16 (drop 4 bs) }) else none

-- One round of `EncodeCompactNodes`, which fills 26 bytes.
unfoldable pub encode_node : CompactNodeInfo → Bytes
unfolding copy_into put_uint16 to4
encode_node n = copy_into 20 n.id ++ (copy_into 4 (to4 n.ip) ++ put_uint16 n.port)

-- `EncodeCompactNodes`
unfoldable pub encode_compact_nodes : List CompactNodeInfo → Bytes
unfolding encode_node
encode_compact_nodes [] = []
encode_compact_nodes (n ∷ ns) = encode_node n ++ encode_compact_nodes ns

-- One round of `DecodeCompactNodes`.
unfoldable pub decode_node : Bytes → CompactNodeInfo
unfolding get_uint16
decode_node bs = record {
  id = take 20 bs;
  ip = take 4 (drop 20 bs);
  port = get_uint16 (drop 24 bs);
}

unfoldable pub decode_nodes : ℕ → Bytes → List CompactNodeInfo
unfolding decode_node
decode_nodes zero bs = []
decode_nodes (suc n) bs = decode_node (take 26 bs) ∷ decode_nodes n (drop 26 bs)

-- `DecodeCompactNodes`: `nil` for a text that is no whole number of nodes.
unfoldable pub decode_compact_nodes : Bytes → List CompactNodeInfo
unfolding decode_nodes
decode_compact_nodes bs = if length bs % 26 == 0 then decode_nodes (length bs / 26) bs else []
