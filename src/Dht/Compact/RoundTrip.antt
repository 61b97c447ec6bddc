-- ===== src/Dht/Compact/RoundTrip.antt =====
-- What is packed is unpacked.
use bt_dht_crawler.Prelude.{
  ℕ, ◌*◌, ◌^◌, ◌<◌, ◌≡◌, ◌≢◌, refl, ap, ◌/◌, ◌%◌, List, [], ◌∷◌, ◌++◌, append_assoc, Bytes, length,
  length-append, take, drop, take-append, drop-append, All, ◌==◌, Bool-cases, inl, inr, arith, some,
}
use bt_dht_crawler.Dht.Compact.{
  CompactNodeInfo, CompactPeerInfo, to4, copy_into, put_uint16, get_uint16, encode_compact_peer,
  decode_compact_peer, encode_node, encode_compact_nodes, decode_node, decode_nodes,
  decode_compact_nodes,
}

-- An IPv4 address and a port, as the compact forms hold them.
pub record IsEndpoint (ip : Bytes) (port : ℕ) : Type 0 where
  pub four : length ip ≡ 4
  pub port_fits : port < 2 ^ 16

copy_into_exact : (bs : Bytes) → copy_into (length bs) bs ≡ bs
unfolding copy_into
copy_into_exact [] = refl
copy_into_exact (b ∷ bs) = ap (◌∷◌ b) (copy_into_exact bs)

copy_into_whole : (n : ℕ) (bs : Bytes) → length bs ≡ n → copy_into n bs ≡ bs
copy_into_whole n bs e = rw (← e) (copy_into_exact bs)

to4_four : (ip : Bytes) → length ip ≡ 4 → to4 ip ≡ ip
unfolding to4
to4_four ip e = ground arith

uint16_back : (n : ℕ) → n < 2 ^ 16 → get_uint16 (put_uint16 n) ≡ n
unfolding get_uint16 put_uint16
uint16_back n h = omega arith

length-put_uint16 : (n : ℕ) → length (put_uint16 n) ≡ 2
unfolding put_uint16
length-put_uint16 n = refl

encode_peer_lem :
    (p : CompactPeerInfo)
    → IsEndpoint p.ip p.port
    → encode_compact_peer p ≡ p.ip ++ put_uint16 p.port
encode_peer_lem p h =
    unfold encode_compact_peer in rw (to4_four p.ip h.four, copy_into_whole 4 p.ip h.four)

take_exact : (n : ℕ) (xs ys : Bytes) → length xs ≡ n → take n (xs ++ ys) ≡ xs
take_exact n xs ys e = rw (← e) (take-append xs ys)

drop_exact : (n : ℕ) (xs ys : Bytes) → length xs ≡ n → drop n (xs ++ ys) ≡ ys
drop_exact n xs ys e = rw (← e) (drop-append xs ys)

-- `DecodeCompactPeer` reads back what `EncodeCompactPeer` writes of an IPv4 address and a port.
pub decode_compact_peer-encode :
    (p : CompactPeerInfo)
    → IsEndpoint p.ip p.port
    → decode_compact_peer (encode_compact_peer p) ≡ some p
decode_compact_peer-encode p h =
    let size : length (p.ip ++ put_uint16 p.port) ≡ 6 =
      omega (arith, length-append p.ip (put_uint16 p.port), h.four, length-put_uint16 p.port) in
    rw (encode_peer_lem p h) (
      unfold decode_compact_peer in
      rw
        (
          size,
          take_exact 4 p.ip (put_uint16 p.port) h.four,
          drop_exact 4 p.ip (put_uint16 p.port) h.four,
          uint16_back p.port h.port_fits,
        )
        refl)

-- A node that the compact form can hold.
pub record IsCompact (n : CompactNodeInfo) : Type 0 where
  pub id_size : length n.id ≡ 20
  pub endpoint : IsEndpoint n.ip n.port

encode_node_lem :
    (n : CompactNodeInfo) → IsCompact n → encode_node n ≡ n.id ++ (n.ip ++ put_uint16 n.port)
unfolding encode_node
encode_node_lem n h = rw (
  copy_into_whole 20 n.id h.id_size,
  to4_four n.ip h.endpoint.four,
  copy_into_whole 4 n.ip h.endpoint.four,
)

length-encode_node : (n : CompactNodeInfo) → IsCompact n → length (encode_node n) ≡ 26
length-encode_node n h = rw (encode_node_lem n h) (
    omega (
      arith,
      length-append n.id (n.ip ++ put_uint16 n.port),
      length-append n.ip (put_uint16 n.port),
      length-put_uint16 n.port,
      h.id_size,
      h.endpoint.four,
    ))

decode_node-encode_node : (n : CompactNodeInfo) → IsCompact n → decode_node (encode_node n) ≡ n
unfolding decode_node
decode_node-encode_node n h =
    let tail = n.ip ++ put_uint16 n.port in
    let skip : drop 24 (n.id ++ tail) ≡ put_uint16 n.port =
      drop_24 n.id n.ip (put_uint16 n.port) h.id_size h.endpoint.four in
    rw
      (
        encode_node_lem n h,
        take_exact 20 n.id tail h.id_size,
        drop_exact 20 n.id tail h.id_size,
        take_exact 4 n.ip (put_uint16 n.port) h.endpoint.four,
        skip,
        uint16_back n.port h.endpoint.port_fits,
      )
      refl
  where
    drop_24 : (a b c : Bytes) → length a ≡ 20 → length b ≡ 4 → drop 24 (a ++ (b ++ c)) ≡ c
    drop_24 a b c p q =
        rw (← append_assoc a b c) (drop_exact 24 (a ++ b) c (omega (arith, length-append a b)))

decode_nodes-encode :
    (ns : List CompactNodeInfo)
    → All IsCompact ns
    → decode_nodes (length ns) (encode_compact_nodes ns) ≡ ns
unfolding decode_nodes encode_compact_nodes
decode_nodes-encode [] h = refl
decode_nodes-encode (n ∷ ns) h = rw (
  take_exact 26 (encode_node n) (encode_compact_nodes ns) (length-encode_node n h.0),
  drop_exact 26 (encode_node n) (encode_compact_nodes ns) (length-encode_node n h.0),
  decode_node-encode_node n h.0,
  decode_nodes-encode ns h.1,
)

pub length-encode_compact_nodes :
    (ns : List CompactNodeInfo)
    → All IsCompact ns
    → length (encode_compact_nodes ns) ≡ 26 * length ns
unfolding encode_compact_nodes
length-encode_compact_nodes [] h = refl
length-encode_compact_nodes (n ∷ ns) h = omega (
  arith,
  length-append (encode_node n) (encode_compact_nodes ns),
  length-encode_node n h.0,
  length-encode_compact_nodes ns h.1,
)

-- `DecodeCompactNodes` reads back what `EncodeCompactNodes` writes of nodes with identifiers of 20
-- bytes, IPv4 addresses and ports.
pub decode_compact_nodes-encode :
    (ns : List CompactNodeInfo)
    → All IsCompact ns
    → decode_compact_nodes (encode_compact_nodes ns) ≡ ns
unfolding decode_compact_nodes
decode_compact_nodes-encode ns h =
    let e : length (encode_compact_nodes ns) ≡ 26 * length ns = length-encode_compact_nodes ns h in
    let whole : 26 * length ns % 26 ≡ 0 = omega arith in
    let count : 26 * length ns / 26 ≡ length ns = omega arith in
    rw (e, whole, count) (decode_nodes-encode ns h)

-- A text of compact nodes that does not have a whole number of 26 bytes is dropped.
pub decode_compact_nodes_ragged : (bs : Bytes) → length bs % 26 ≢ 0 → decode_compact_nodes bs ≡ []
unfolding decode_compact_nodes
decode_compact_nodes_ragged bs h = elim (Bool-cases (length bs % 26 == 0)) [
  | inl e ↦ absurd (h (ground arith))
  | inr e ↦ rw e
]
