-- ===== src/Bt/Metadata/Session.antt =====
-- internal/bt/metadata.go: `Download`. Dialling is a parameter, and so is SHA-1, which is Go's library.
pub mod Outcomes
pub mod Opening
pub mod Peers
use bt_dht_crawler.Prelude.{
  ℕ, zero, suc, ◌+◌, ◌-◌, ◌*◌, ◌^◌, ◌≤◌, ◌<◌, ◌≡◌, ◌≢◌, refl, sym, ap, ap₂, ◌∙◌, subst, Bool, true,
  false, not, ◌&&◌, ◌||◌, ◌/◌, ◌%◌, List, [], ◌∷◌, ◌++◌, append_assoc, append-nil, map, min, Bytes,
  codes, bytes_eq, bytes_eq→eq, eq→bytes_eq, bytes_eq_refl, bytes_eq-same, times, Option-cases,
  length, length-append, take, drop, get_elem?, set, replicate, length-set, length-take,
  length-drop, take-append, drop-append, All, All-append, Pairwise, Pairwise-middle, ltb, ltb→lt,
  leb, ◌==◌, if◌then◌else◌, Outcome, ok, err, panic, Error, ◌>>=◌, Ends, Ends-bind, Ends-mono,
  Ends-if, Always, Bool-cases, inl, inr, ◌⊎◌, arith, Option, none, some,
}
use bt_dht_crawler.Prelude.Int.{ℤ, pos, negsuc, IsInt64}
use Prim.Native.Nat.{bit_and}
use bt_dht_crawler.Prelude.Lists.{get_or}
use bt_dht_crawler.Bt.Metadata.Wire.{Conn, is_int}
use bt_dht_crawler.Bt.Metadata.Handshake.{
  send_handshake, read_handshake, send_ext_handshake, read_ext_handshake, extension_bit,
}
use bt_dht_crawler.Bt.Metadata.Pieces.{download_metadata}
use bt_dht_crawler.Bt.Metadata.Info.{TorrentMeta, parse_metadata}

-- `a > b` for an `int` and a limit that is not negative.
unfoldable pub exceeds : ℤ → ℕ → Bool
exceeds (pos n) limit = ltb limit n
exceeds (negsuc n) limit = false

-- 10 MB, as `NewMetadataDownloader` sets it.
abbrev pub max_meta_size : ℕ
max_meta_size = 10 * 1024 * 1024

abbrev pub supports_extensions : Bytes → Bool
supports_extensions reserved = not (bit_and (get_or reserved 5 0) extension_bit == 0)

module _ (sha1 : Bytes → Bytes) where
  -- The check of the hash, and the parse.
  unfoldable pub verify : Bytes → Bytes → Outcome TorrentMeta
  unfolding parse_metadata
  verify info_hash metadata =
      if bytes_eq (sha1 metadata) info_hash
      then parse_metadata info_hash metadata
      else err Error.wrong_hash

  -- From the extension handshake of the peer on.
  unfoldable pub fetch : Bytes → ℤ → ℤ → Conn → Outcome TorrentMeta
  unfolding verify exceeds is_int download_metadata
  fetch info_hash msg_id size c =
      if is_int msg_id 0
      then err Error.no_metadata_support
      else if exceeds size max_meta_size
      then err Error.metadata_too_big
      else (download_metadata msg_id size c >>= λ r. verify info_hash r.0)

  -- Behind the handshake.
  unfoldable pub negotiate : Bytes → Bytes → Conn → Outcome TorrentMeta
  unfolding fetch send_ext_handshake read_ext_handshake
  negotiate info_hash reserved c =
      if supports_extensions reserved
      then (send_ext_handshake c >>= λ c'.
          read_ext_handshake c' >>= λ r. fetch info_hash r.0.0 r.0.1 r.1)
      else err Error.no_metadata_support

  -- `Download`
  unfoldable pub download : (Bytes → Outcome Conn) → Bytes → Bytes → Outcome TorrentMeta
  unfolding negotiate send_handshake read_handshake
  download dial info_hash peer_addr = dial peer_addr >>= λ c. send_handshake info_hash c >>= λ c'.
      read_handshake info_hash c' >>= λ r. negotiate info_hash r.0 r.1
