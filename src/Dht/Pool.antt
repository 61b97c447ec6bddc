-- ===== src/Dht/Pool.antt =====
-- internal/dht/pool.go: the peers that a search over the nodes of the pool returns.
pub mod Distinct
pub mod Stats
use bt_dht_crawler.Prelude.{
  ℕ, zero, suc, ◌+◌, ◌-◌, ◌*◌, ◌^◌, ◌≤◌, ◌<◌, ◌≡◌, ◌≢◌, refl, sym, ap, ap₂, ◌∙◌, subst, Bool, true,
  false, not, ◌&&◌, ◌||◌, ◌/◌, ◌%◌, List, [], ◌∷◌, ◌++◌, append_assoc, append-nil, map, Bytes,
  codes, bytes_eq, bytes_eq→eq, eq→bytes_eq, bytes_eq_refl, bytes_eq-same, times, Option-cases,
  length, length-append, take, drop, take-append, drop-append, All, All-append, Pairwise,
  Pairwise-middle, ltb, ltb→lt, leb, ◌==◌, if◌then◌else◌, Outcome, ok, err, panic, Error, ◌>>=◌,
  Bool-cases, inl, inr, ◌⊎◌, arith, Option, none, some,
}
use bt_dht_crawler.Bt.Decimal.{format}
use bt_dht_crawler.Dht.Compact.{CompactPeerInfo}

-- `seen[key]`
unfoldable pub has_key : Bytes → List Bytes → Bool
has_key k [] = false
has_key k (h ∷ hs) = bytes_eq k h || has_key k hs

-- `fmt.Sprintf("%s:%d", peer.IP, peer.Port)`; `ip_string` is the `String` of Go's `net.IP`.
abbrev pub peer_key : (Bytes → Bytes) → CompactPeerInfo → Bytes
peer_key ip_string p = ip_string p.ip ++ (b':' ∷ format p.port)

module _ (ip_string : Bytes → Bytes) where
  -- The loop that leaves out what it has seen.
  unfoldable pub unique_peers : List Bytes → List CompactPeerInfo → List CompactPeerInfo
  unfolding has_key
  unique_peers seen [] = []
  unique_peers seen (p ∷ ps) =
      let skipped = unique_peers seen ps in
      let kept = p ∷ unique_peers (peer_key ip_string p ∷ seen) ps in
      if has_key (peer_key ip_string p) seen then skipped else kept

-- `nodesToQuery`: five, or as many as there are.
unfoldable pub nodes_to_query : {N : Type 0} → List N → ℕ
nodes_to_query nodes = if ltb (length nodes) 5 then length nodes else 5

-- The appends to `allPeers` of what the nodes find, in the order in which their goroutines end.
unfoldable pub all_peers : {N : Type 0} → (N → List CompactPeerInfo) → List N → List CompactPeerInfo
all_peers search [] = []
all_peers search (n ∷ ns) = search n ++ all_peers search ns

-- `FindPeers`. `search` is what the `FindPeers` of each node returns, and `order` the order in which the
-- goroutines end.
unfoldable pub find_peers :
    {N : Type 0}
    → (Bytes → Bytes)
    → (N → List CompactPeerInfo)
    → (List N → List N)
    → List N
    → List CompactPeerInfo
unfolding unique_peers all_peers nodes_to_query
find_peers ip_string search order nodes =
    unique_peers ip_string [] (all_peers search (order (take (nodes_to_query nodes) nodes)))
