-- ===== src/Dht/Pool/Distinct.antt =====
-- Each peer is returned once.
use bt_dht_crawler.Prelude.{
  ℕ, zero, suc, ◌+◌, ◌^◌, ◌≤◌, ◌<◌, ◌≡◌, ◌≢◌, refl, sym, ap, ap₂, ◌∙◌, Bool, true, false, ◌&&◌,
  List, [], ◌∷◌, ◌++◌, map, min, Bytes, bytes_eq, bytes_eq→eq, eq→bytes_eq, times, length, take,
  All, All-append, ltb, ltb→lt, ◌==◌, if◌then◌else◌, ok, Bool-cases, inl, inr, arith,
}
use bt_dht_crawler.Bt.Decimal.{format, parse_uint}
use bt_dht_crawler.Bt.Decimal.RoundTrip.{parse_uint-format}
use mathlib.Core.List.{Perm, foldr}
use mathlib.Core.List.Perm
use native.Mathlib.Nat.{ℕ_set}
use bt_dht_crawler.Dht.Compact.{CompactPeerInfo}
use bt_dht_crawler.Dht.Compact.RoundTrip.{IsEndpoint}
use bt_dht_crawler.Dht.Pool.{has_key, peer_key, unique_peers, nodes_to_query, all_peers, find_peers}

-- What `String` says of IPv4 addresses: their texts have no colon, and differ.
pub record IsIpText (ip_string : Bytes → Bytes) : Type 0 where
  pub no_colon : (ip : Bytes) → length ip ≡ 4 → All (λ b. b ≢ b':') (ip_string ip)
  pub one_ip : (a b : Bytes) → length a ≡ 4 → length b ≡ 4 → ip_string a ≡ ip_string b → a ≡ b

-- How often a peer with this address and port is in a list.
abbrev pub is_at : Bytes → ℕ → CompactPeerInfo → Bool
is_at ip port p = bytes_eq ip p.ip && (port == p.port)

abbrev pub times_at : Bytes → ℕ → List CompactPeerInfo → ℕ
times_at ip port [] = 0
times_at ip port (p ∷ ps) = (if is_at ip port p then 1 else 0) + times_at ip port ps

abbrev pub AreEndpoints : List CompactPeerInfo → Type 0
AreEndpoints ps = All (λ p. IsEndpoint p.ip p.port) ps

-- The keys of peers.
abbrev keys_of : (Bytes → Bytes) → List CompactPeerInfo → List Bytes
keys_of ip_string = map (peer_key ip_string)

two_cases : (x : Bool) (t : ℕ) → (if x then 0 else min 1 t) ≡ (if x then 0 else min 1 (0 + t))
two_cases true t = refl
two_cases false t = omega arith

times-unique_peers :
    (ip_string : Bytes → Bytes) (k : Bytes) (seen : List Bytes) (ps : List CompactPeerInfo)
    → times k (keys_of ip_string (unique_peers ip_string seen ps))
      ≡ (if has_key k seen then 0 else min 1 (times k (keys_of ip_string ps)))
unfolding unique_peers has_key
times-unique_peers ip_string k seen [] = elim (Bool-cases (has_key k seen)) [
  | inl e ↦ rw e refl
  | inr e ↦ rw e (omega arith)
]
times-unique_peers ip_string k seen (p ∷ ps) =
    let key = peer_key ip_string p in
    let same = times-unique_peers ip_string k seen ps in
    let more = times-unique_peers ip_string k (key ∷ seen) ps in
    elim (Bool-cases (has_key key seen)) [
      | inl e ↦ elim (Bool-cases (bytes_eq k key)) [
        | inl d ↦
            let known : has_key k seen ≡ true = rw (bytes_eq→eq k key d) e in
            let s : times k (keys_of ip_string (unique_peers ip_string seen ps)) ≡ 0 =
              rw known at same in
            rw (e, known) s
        | inr d ↦ rw (e, d) (same ∙ two_cases (has_key k seen) (times k (keys_of ip_string ps)))
      ]
      | inr e ↦ elim (Bool-cases (bytes_eq k key)) [
        | inl d ↦
            let known : has_key k seen ≡ false = rw (bytes_eq→eq k key d) e in
            let s : times k (keys_of ip_string (unique_peers ip_string (key ∷ seen) ps)) ≡ 0 =
              rw d at more in
            rw (e, d, known) (omega (arith, s))
        | inr d ↦
            let s : times k (keys_of ip_string (unique_peers ip_string (key ∷ seen) ps))
                ≡ (if has_key k seen then 0 else min 1 (times k (keys_of ip_string ps))) =
              rw d at more in
            rw (e, d)
              (ap (λ z. 0 + z) s ∙ zero_left (has_key k seen) (times k (keys_of ip_string ps)))
      ]
    ]
  where
    zero_left :
        (x : Bool) (t : ℕ) → 0 + (if x then 0 else min 1 t) ≡ (if x then 0 else min 1 (0 + t))
    zero_left true t = omega arith
    zero_left false t = omega arith

-- Texts without a colon before it end at the first.
split_colon :
    (a b x y : Bytes)
    → All (λ c. c ≢ b':') a
    → All (λ c. c ≢ b':') b
    → a ++ (b':' ∷ x) ≡ b ++ (b':' ∷ y)
    → (a ≡ b) × (x ≡ y)
split_colon [] [] x y f g e = (refl, cc)
split_colon [] (c ∷ b) x y f g e = absurd (g.0 cc)
split_colon (c ∷ a) [] x y f g e = absurd (f.0 cc)
split_colon (c ∷ a) (d ∷ b) x y f g e =
    let rest : a ++ (b':' ∷ x) ≡ b ++ (b':' ∷ y) = cc in
    let same : c ≡ d = cc in let (p, q) = split_colon a b x y f.1 g.1 rest in (ap₂ ◌∷◌ same p, q)

ok_injective : (a b : ℕ) → ok a ≡ ok b → a ≡ b
ok_injective a b e = cc

format-injective : (m n : ℕ) → m < 2 ^ 16 → n < 2 ^ 16 → format m ≡ format n → m ≡ n
format-injective m n h k e =
    ok_injective m n (
      sym (parse_uint-format m (omega arith)) ∙ ap parse_uint e ∙ parse_uint-format n (omega arith))

-- The key tells addresses and ports apart.
peer_key-is_at :
    (ip_string : Bytes → Bytes) (ip : Bytes) (port : ℕ) (p : CompactPeerInfo)
    → IsIpText ip_string
    → IsEndpoint ip port
    → IsEndpoint p.ip p.port
    → bytes_eq (peer_key ip_string (record { ip = ip; port = port })) (peer_key ip_string p)
      ≡ is_at ip port p
peer_key-is_at ip_string ip port p text g h =
    elim (Bool-cases
      (bytes_eq (peer_key ip_string (record { ip = ip; port = port })) (peer_key ip_string p))) [
        | inl e ↦
            let (same_ip, same_text) =
              split_colon (ip_string ip) (ip_string p.ip) (format port) (format p.port)
                (text.no_colon ip g.four) (text.no_colon p.ip h.four) (bytes_eq→eq _ _ e) in
            let a : bytes_eq ip p.ip ≡ true =
              eq→bytes_eq ip p.ip (text.one_ip ip p.ip g.four h.four same_ip) in
            let b : port ≡ p.port =
              format-injective port p.port g.port_fits h.port_fits same_text in
            rw (e, a) (ground arith)
        | inr e ↦ elim (Bool-cases (is_at ip port p)) [
          | inl d ↦
              let i : bytes_eq ip p.ip ≡ true = ground arith in
              let a : ip ≡ p.ip = bytes_eq→eq ip p.ip i in
              let b : port ≡ p.port = ground arith in
              let same : peer_key ip_string (record { ip = ip; port = port })
                  ≡ peer_key ip_string p =
                ap₂ (λ u v. ip_string u ++ (b':' ∷ format v)) a b in
              absurd (cc (e, eq→bytes_eq _ _ same))
          | inr d ↦ rw (e, d) refl
        ]
      ]

times-times_at :
    (ip_string : Bytes → Bytes) (ip : Bytes) (port : ℕ) (ps : List CompactPeerInfo)
    → IsIpText ip_string
    → IsEndpoint ip port
    → AreEndpoints ps
    → times (peer_key ip_string (record { ip = ip; port = port })) (keys_of ip_string ps)
      ≡ times_at ip port ps
times-times_at ip_string ip port [] text g h = refl
times-times_at ip_string ip port (p ∷ ps) text g h =
    ap₂ (λ b n. (if b then 1 else 0) + n) (peer_key-is_at ip_string ip port p text g h.0)
      (times-times_at ip_string ip port ps text g h.1)

unique_peers-All :
    (P : CompactPeerInfo → Type 0) (ip_string : Bytes → Bytes) (seen : List Bytes)
    (ps : List CompactPeerInfo)
    → All P ps
    → All P (unique_peers ip_string seen ps)
unfolding unique_peers
unique_peers-All P ip_string seen [] h = tt
unique_peers-All P ip_string seen (p ∷ ps) h =
    elim (Bool-cases (has_key (peer_key ip_string p) seen)) [
      | inl e ↦ rw e (unique_peers-All P ip_string seen ps h.1)
      | inr e ↦ rw e (h.0, unique_peers-All P ip_string (peer_key ip_string p ∷ seen) ps h.1)
    ]

times_at-append :
    (ip : Bytes) (port : ℕ) (ps qs : List CompactPeerInfo)
    → times_at ip port (ps ++ qs) ≡ times_at ip port ps + times_at ip port qs
times_at-append ip port [] qs = omega arith
times_at-append ip port (p ∷ ps) qs =
    ap (λ n. (if is_at ip port p then 1 else 0) + n) (times_at-append ip port ps qs) ∙ omega arith

module _ {N : Type 0} (search : N → List CompactPeerInfo) where
  all_peers-All :
      (P : CompactPeerInfo → Type 0) (ns : List N)
      → ((n : N) → All P (search n))
      → All P (all_peers search ns)
  unfolding all_peers
  all_peers-All P [] h = tt
  all_peers-All P (n ∷ ns) h =
      All-append P (search n) (all_peers search ns) (h n) (all_peers-All P ns h)

  times_at-all_peers :
      (ip : Bytes) (port : ℕ) (ns : List N)
      → times_at ip port (all_peers search ns) ≡ foldr (λ n t. times_at ip port (search n) + t) 0 ns
  unfolding all_peers
  times_at-all_peers ip port [] = refl
  times_at-all_peers ip port (n ∷ ns) =
      times_at-append ip port (search n) (all_peers search ns)
      ∙ ap (λ t. times_at ip port (search n) + t) (times_at-all_peers ip port ns)

  -- The order of the nodes does not matter.
  times_at-Perm :
      (ip : Bytes) (port : ℕ) (ms ns : List N)
      → Perm ms ns
      → times_at ip port (all_peers search ms) ≡ times_at ip port (all_peers search ns)
  times_at-Perm ip port ms ns p =
      times_at-all_peers ip port ms
      ∙ Perm.foldr-eq ℕ_set (λ n t. times_at ip port (search n) + t) (λ a b x. omega arith) p 0
      ∙ sym (times_at-all_peers ip port ns)

take_all : {N : Type 0} (n : ℕ) (ns : List N) → length ns ≤ n → take (length ns) ns ≡ take n ns
take_all zero [] h = refl
take_all zero (x ∷ ns) h = absurd (omega arith)
take_all (suc n) [] h = refl
take_all (suc n) (x ∷ ns) h = ap (◌∷◌ x) (take_all n ns (omega arith))

take-nodes_to_query :
    {N : Type 0} (nodes : List N) → take (nodes_to_query nodes) nodes ≡ take 5 nodes
unfolding nodes_to_query
take-nodes_to_query nodes = elim (Bool-cases (ltb (length nodes) 5)) [
  | inl e ↦ rw e (take_all 5 nodes (omega (arith, ltb→lt (length nodes) 5 e)))
  | inr e ↦ rw e refl
]

-- Let the texts of IPv4 addresses differ and have no colon, the goroutines end in any order, and every node find
-- peers with an IPv4 address and a port only. Then `FindPeers` of the pool returns each address and port that one of
-- the first five nodes found exactly once, and no other: two peers are the same if both their IP and their port are.
pub times-find_peers :
    {N : Type 0} (ip_string : Bytes → Bytes) (search : N → List CompactPeerInfo)
    (order : List N → List N) (nodes : List N) (ip : Bytes) (port : ℕ)
    → IsIpText ip_string
    → ((ns : List N) → Perm (order ns) ns)
    → ((n : N) → AreEndpoints (search n))
    → IsEndpoint ip port
    → times_at ip port (find_peers ip_string search order nodes)
      ≡ min 1 (times_at ip port (all_peers search (take 5 nodes)))
unfolding find_peers has_key
times-find_peers ip_string search order nodes ip port text permuted found g =
    let asked = take (nodes_to_query nodes) nodes in
    let all = all_peers search (order asked) in
    let good = all_peers-All search (λ p. IsEndpoint p.ip p.port) (order asked) found in
    let key = peer_key ip_string (record { ip = ip; port = port }) in
    sym (
      times-times_at ip_string ip port (unique_peers ip_string [] all) text g
        (unique_peers-All (λ p. IsEndpoint p.ip p.port) ip_string [] all good))
    ∙ times-unique_peers ip_string key [] all
    ∙ ap (min 1) (
        times-times_at ip_string ip port all text g good
        ∙ times_at-Perm search ip port (order asked) asked (permuted asked)
        ∙ ap (λ ns. times_at ip port (all_peers search ns)) (take-nodes_to_query nodes))
