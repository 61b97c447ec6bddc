-- ===== src/Crawler/Search.antt =====
-- internal/crawler/crawler.go: `searchAndDownload`, which a `get_peers` event starts.
pub mod Refused
use bt_dht_crawler.Prelude.{
  ℕ, zero, suc, Bool, false, List, [], ◌∷◌, Bytes, leb, if◌then◌else◌, Outcome, ok, err, panic,
}
use bt_dht_crawler.Prelude.Int.{pos}
use bt_dht_crawler.Dht.Compact.{CompactPeerInfo}
use bt_dht_crawler.Crawler.Queue.{WorkerPool, add}
use bt_dht_crawler.Crawler.Events.{peer_addr}

abbrev pub max_submitted : ℕ
max_submitted = 3

-- The tokens that `init` puts into the channel `searchLimiter`.
abbrev pub search_tokens : ℕ
search_tokens = 10

-- `if exists`, where an error of the look-up is dropped.
abbrev pub is_there : Outcome Bool → Bool
is_there (ok b) = b
is_there (err e) = false
is_there panic = false

module _ (ip_string : Bytes → Bytes) where
  abbrev pub found_addr : CompactPeerInfo → Bytes
  found_addr x = peer_addr (ip_string x.ip) (pos x.port)

  -- The loop over the peers, which ends with the third that the queue takes. It runs beside the feeder, the workers
  -- and the other goroutines: `between i` is what these do to the pool before the submission of the `i`-th peer.
  unfoldable pub submit_found :
      (ℕ → WorkerPool → WorkerPool)
      → Bytes
      → ℕ
      → ℕ
      → ℕ
      → List CompactPeerInfo
      → WorkerPool
      → WorkerPool
  unfolding add peer_addr
  submit_found between info_hash now i submitted [] p = p
  submit_found between info_hash now i submitted (x ∷ xs) p =
      let found = between i p in
      let r = add info_hash (found_addr x) now found.queue in
      let more =
        submit_found between info_hash now (suc i) (suc submitted) xs
          (record found { queue = r.0 }) in
      let refused =
        submit_found between info_hash now (suc i) submitted xs (record found { queue = r.0 }) in
      if r.1
      then (if leb max_submitted (suc submitted) then record found { queue = r.0 } else more)
      else refused

  -- `searchAndDownload`, given how many tokens are left in the channel, and what the look-up and the search of
  -- the pool return. The token is put back at the end.
  unfoldable pub search_and_download :
      ℕ
      → (ℕ → WorkerPool → WorkerPool)
      → Outcome Bool
      → (Bytes → List CompactPeerInfo)
      → Bytes
      → Bytes
      → ℕ
      → WorkerPool
      → WorkerPool
  unfolding submit_found
  search_and_download zero between exists find_peers info_hash info_hash_hex now p = p
  search_and_download (suc tokens) between exists find_peers info_hash info_hash_hex now p =
      if is_there exists
      then p
      else submit_found between info_hash_hex now 0 0 (find_peers info_hash) p
