-- ===== src/Bt/Metadata/Session/Peers.antt =====
-- What becomes of a download, by what the peer does behind the handshakes.
use bt_dht_crawler.Prelude.{
  ℕ, ◌+◌, ◌≤◌, ◌<◌, ◌≡◌, refl, ◌∙◌, false, List, ◌++◌, map, Bytes, bytes_eq_refl, length, All,
  le→not_ltb, Outcome, err, panic, Error, ◌>>=◌, arith,
}
use bt_dht_crawler.Prelude.Int.{ℤ, pos, negsuc}
use bt_dht_crawler.Bt.Metadata.Wire.{Conn, is_int}
use bt_dht_crawler.Bt.Metadata.Wire.Frames.{Message, traffic}
use bt_dht_crawler.Bt.Metadata.Pieces.{num_pieces, download_metadata}
use bt_dht_crawler.Bt.Metadata.Pieces.Honest.{
  Sent, message_of, IsFrom, HasPiece, download_metadata-honest,
}
use bt_dht_crawler.Bt.Metadata.Pieces.Foreign.{IsConforming, download_metadata-conforming}
use bt_dht_crawler.Bt.Metadata.Info.{parse_metadata}
use bt_dht_crawler.Bt.Metadata.Session.{exceeds, max_meta_size, verify, fetch, download}
use bt_dht_crawler.Bt.Metadata.Session.Opening.{Greeting, Answered, opening, download-negotiated}

some-is_int : (n : ℕ) → 0 < n → is_int (pos n) 0 ≡ false
unfolding is_int
some-is_int n h = ground arith

-- An identifier and a size that pass the tests before the transfer.
fetch-transfer :
    (sha1 : Bytes → Bytes) (info_hash : Bytes) (id : ℕ) (size : ℤ) (c : Conn)
    → 0 < id
    → exceeds size max_meta_size ≡ false
    → fetch sha1 info_hash (pos id) size c
      ≡ (download_metadata (pos id) size c >>= λ r. verify sha1 info_hash r.0)
unfolding fetch
fetch-transfer sha1 info_hash id size c h fits = rw (some-is_int id h, fits) refl

small-exceeds : (n : ℕ) → n ≤ max_meta_size → exceeds (pos n) max_meta_size ≡ false
unfolding exceeds
small-exceeds n h = le→not_ltb max_meta_size n h

-- Let a peer shake hands for the info hash with the extension bit, announce an identifier and the
-- size of metadata of at most 10 MB whose SHA-1 is the info hash, and send each piece of them at
-- least once under that identifier, in any order, any number of times, with other messages in
-- between; let every write succeed. Then `Download` returns what parsing exactly these metadata
-- gives.
pub download-honest :
    (sha1 : Bytes → Bytes) (dial : Bytes → Outcome Conn)
    (info_hash peer_addr extensions peer : Bytes) (id : ℕ) (info rest hello : Bytes)
    (before : List Message) (ss : List Sent) (c : Conn)
    → Answered dial info_hash peer_addr
        (opening extensions peer info_hash before hello
          (traffic (map (message_of id info) ss) ++ rest))
        c
    → Greeting extensions peer (pos id) (pos (length info)) before hello
    → 0 < id
    → length info ≤ max_meta_size
    → num_pieces (length info) + 2 ≤ c.writes_left
    → sha1 info ≡ info_hash
    → All (IsFrom id info) ss
    → ((j : ℕ) → j < num_pieces (length info) → HasPiece j ss)
    → download sha1 dial info_hash peer_addr ≡ parse_metadata info_hash info
unfolding verify
download-honest sha1 dial info_hash peer_addr extensions peer id info rest hello before ss c a g
      some_id fits room hash from each =
    let (c1, met, next, left) =
      download-negotiated sha1 dial info_hash peer_addr extensions peer (pos id) (pos (length info))
        before hello (traffic (map (message_of id info) ss) ++ rest) c a g in
    let (c2, got) =
      download_metadata-honest id info rest ss c1 (omega (arith, fits)) (omega (arith, room, left))
        from each next in
    met
    ∙ fetch-transfer sha1 info_hash id (pos (length info)) c1 some_id
        (small-exceeds (length info) fits)
    ∙ (rw (got, ◌>>=◌, hash, bytes_eq_refl info_hash) refl)

-- Let a peer shake hands for the info hash with the extension bit, announce an identifier of
-- ut_metadata other than 0 and 1 and a size from 1 byte to 10 MB, and then send messages that
-- follow the extension protocol, whose pieces have the identifier that our handshake asked for; let
-- every write succeed. Then `Download` fails, even if all pieces were sent.
pub download-conforming :
    (sha1 : Bytes → Bytes) (dial : Bytes → Outcome Conn)
    (info_hash peer_addr extensions peer : Bytes) (id size : ℕ) (hello : Bytes)
    (before ms : List Message) (c : Conn)
    → Answered dial info_hash peer_addr
        (opening extensions peer info_hash before hello (traffic ms))
        c
    → Greeting extensions peer (pos id) (pos size) before hello
    → 1 < id
    → 0 < size
    → size ≤ max_meta_size
    → num_pieces size + 2 ≤ c.writes_left
    → All IsConforming ms
    → download sha1 dial info_hash peer_addr ≡ err Error.external
download-conforming sha1 dial info_hash peer_addr extensions peer id size hello before ms c a g
      other some_bytes fits room follow =
    let (c1, met, next, left) =
      download-negotiated sha1 dial info_hash peer_addr extensions peer (pos id) (pos size) before
        hello (traffic ms) c a g in
    let fails =
      download_metadata-conforming id size ms c1 other some_bytes (omega (arith, fits))
        (omega (arith, room, left)) follow next in
    met
    ∙ fetch-transfer sha1 info_hash id (pos size) c1 (omega arith) (small-exceeds size fits)
    ∙ (rw fails refl)

-- Let a peer shake hands for the info hash with the extension bit and announce an identifier above
-- 0 and a negative size; let the two writes succeed. Then `Download` panics, whatever follows.
pub download-negative :
    (sha1 : Bytes → Bytes) (dial : Bytes → Outcome Conn)
    (info_hash peer_addr extensions peer : Bytes) (id n : ℕ) (hello rest : Bytes)
    (before : List Message) (c : Conn)
    → Answered dial info_hash peer_addr (opening extensions peer info_hash before hello rest) c
    → Greeting extensions peer (pos id) (negsuc n) before hello
    → 0 < id
    → download sha1 dial info_hash peer_addr ≡ panic
unfolding exceeds download_metadata
download-negative sha1 dial info_hash peer_addr extensions peer id n hello rest before c a g
      some_id =
    let (c1, met, next, left) =
      download-negotiated sha1 dial info_hash peer_addr extensions peer (pos id) (negsuc n) before
        hello rest c a g in
    met ∙ fetch-transfer sha1 info_hash id (negsuc n) c1 some_id refl
