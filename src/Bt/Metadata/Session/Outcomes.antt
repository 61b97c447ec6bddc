-- ===== src/Bt/Metadata/Session/Outcomes.antt =====
-- How a download ends: what it returns was checked.
use bt_dht_crawler.Prelude.{
  ◌≡◌, refl, ap, ◌∙◌, [], ◌∷◌, Bytes, codes, bytes_eq, bytes_eq→eq, Outcome, Ends, Ends-bind,
  Ends-if, Always, Bool-cases, inl, inr, Option, none, some,
}
use bt_dht_crawler.Prelude.Int.{ℤ, pos}
use bt_dht_crawler.Bt.Value.{
  Items, Dict, nil, cons, str, bytes, int, int64, uint16, uint32, list, dict, other, from_list,
}
use bt_dht_crawler.Bt.Encode.{encode}
use bt_dht_crawler.Bt.Decode.{decode_top_dict}
use bt_dht_crawler.Bt.Decode.Total.{decode_top_dict-Ends}
use bt_dht_crawler.Bt.Access.{get_int, get_list}
use bt_dht_crawler.Bt.Metadata.Wire.{Conn, send_ext_message, read_full, is_int}
use bt_dht_crawler.Bt.Metadata.Wire.Frames.{read_full-Ends}
use bt_dht_crawler.Bt.Metadata.Handshake.{
  handshake, send_handshake, head_byte, read_handshake, send_ext_handshake, read_ext_handshake,
}
use bt_dht_crawler.Bt.Metadata.Handshake.Exchange.{read_ext_handshake-Ends}
use bt_dht_crawler.Bt.Metadata.Pieces.{download_metadata}
use bt_dht_crawler.Bt.Metadata.Pieces.Ending.{
  download_metadata-Ends, send_ext_message-Ends, write_left-Ends,
}
use bt_dht_crawler.Bt.Metadata.Info.{
  TorrentMeta, meta_of, add_file, add_files, with_files, parse_metadata,
}
use bt_dht_crawler.Bt.Metadata.Session.{
  exceeds, max_meta_size, supports_extensions, verify, fetch, negotiate, download,
}

-- The metadata of these bytes for this hash.
abbrev IsOf : Bytes → Bytes → TorrentMeta → Type 0
IsOf info_hash text m = (m.info_hash ≡ info_hash) × (m.raw_info ≡ text)

add_files-IsOf :
    (h text : Bytes) (xs : Items) (m : TorrentMeta) → IsOf h text m → IsOf h text (add_files xs m)
unfolding add_files add_file
add_files-IsOf h text nil m p = p
add_files-IsOf h text (cons (str s) xs) m p = add_files-IsOf h text xs m p
add_files-IsOf h text (cons (bytes s) xs) m p = add_files-IsOf h text xs m p
add_files-IsOf h text (cons (int z) xs) m p = add_files-IsOf h text xs m p
add_files-IsOf h text (cons (int64 z) xs) m p = add_files-IsOf h text xs m p
add_files-IsOf h text (cons (uint16 n) xs) m p = add_files-IsOf h text xs m p
add_files-IsOf h text (cons (uint32 n) xs) m p = add_files-IsOf h text xs m p
add_files-IsOf h text (cons (list ys) xs) m p = add_files-IsOf h text xs m p
add_files-IsOf h text (cons (dict d) xs) m p = add_files-IsOf h text xs (add_file d m) p
add_files-IsOf h text (cons other xs) m p = add_files-IsOf h text xs m p

meta_of-IsOf : (h text : Bytes) (d : Dict) → IsOf h text (meta_of h text d)
unfolding meta_of
meta_of-IsOf h text d =
    by_files (get_list d (codes "files")) (get_int d (codes "length")) _ (refl, refl)
  where
    by_files :
        (o : Option Items) (z : Option ℤ) (m : TorrentMeta)
        → IsOf h text m
        → IsOf h text (with_files o z m)
    by_files none none m p = p
    by_files none (some z) m p = p
    by_files (some xs) z m p = add_files-IsOf h text xs m p

-- It was asked for, and the hash of its bytes is the info hash.
abbrev pub IsVerified : (Bytes → Bytes) → Bytes → TorrentMeta → Type 0
IsVerified sha1 info_hash m = (m.info_hash ≡ info_hash) × (sha1 m.raw_info ≡ info_hash)

module _ (sha1 : Bytes → Bytes) (info_hash : Bytes) where
  verify-IsVerified : (text : Bytes) → Ends (IsVerified sha1 info_hash) (verify sha1 info_hash text)
  unfolding verify parse_metadata
  verify-IsVerified text = elim (Bool-cases (bytes_eq (sha1 text) info_hash)) [
    | inl e ↦ rw e (
        Ends-bind Always _ (decode_top_dict text) _ (decode_top_dict-Ends text) λ d _.
          let (p, q) = meta_of-IsOf info_hash text d in
          (p, ap sha1 q ∙ bytes_eq→eq (sha1 text) info_hash e))
    | inr e ↦ rw e tt
  ]

  fetch-IsVerified :
      (id size : ℤ) (c : Conn) → Ends (IsVerified sha1 info_hash) (fetch sha1 info_hash id size c)
  unfolding fetch
  fetch-IsVerified id size c = Ends-if _ (is_int id 0) _ _ tt (
      Ends-if _ (exceeds size max_meta_size) _ _ tt (
        Ends-bind Always _ (download_metadata id size c) _ (download_metadata-Ends id size c)
          (λ r _. verify-IsVerified r.0)))

  send_ext_handshake-Ends : (c : Conn) → Ends Always (send_ext_handshake c)
  unfolding send_ext_handshake
  send_ext_handshake-Ends c =
      Ends-bind Always Always
        (encode (
          dict (
            from_list
              ((codes "m", dict (from_list ((codes "ut_metadata", int64 (pos 1)) ∷ []))) ∷ []))))
        (λ payload. send_ext_message 0 payload c) (unfold encode from_list in tt)
        (λ payload _. send_ext_message-Ends 0 payload c)

  read_handshake-Ends : (c : Conn) → Ends Always (read_handshake info_hash c)
  unfolding read_handshake
  read_handshake-Ends c = Ends-bind _ Always (read_full 1 c) _ (read_full-Ends 1 c) λ a _.
      Ends-bind _ Always (read_full (head_byte a.0) a.1) _ (read_full-Ends (head_byte a.0) a.1)
        λ b _. Ends-bind _ Always (read_full 8 b.1) _ (read_full-Ends 8 b.1) λ x _.
          Ends-bind _ Always (read_full 20 x.1) _ (read_full-Ends 20 x.1) λ h _.
            Ends-if Always (bytes_eq h.0 info_hash) _ _
              (Ends-bind _ Always (read_full 20 h.1) _ (read_full-Ends 20 h.1) (λ p _. tt)) tt

  negotiate-IsVerified :
      (reserved : Bytes) (c : Conn)
      → Ends (IsVerified sha1 info_hash) (negotiate sha1 info_hash reserved c)
  unfolding negotiate
  negotiate-IsVerified reserved c =
      Ends-if _ (supports_extensions reserved) _ _
        (Ends-bind Always _ (send_ext_handshake c) _ (send_ext_handshake-Ends c) λ c' _.
          Ends-bind Always _ (read_ext_handshake c') _ (read_ext_handshake-Ends c')
            λ r _. fetch-IsVerified r.0.0 r.0.1 r.1)
        tt

-- Whatever the peer sends, `Download` ends, and if it returns metadata, they are for the info hash that was
-- asked for, and the SHA-1 of their bytes is this hash. Dialling is whatever ends.
pub download-IsVerified :
    (sha1 : Bytes → Bytes) (dial : Bytes → Outcome Conn) (info_hash peer_addr : Bytes)
    → Ends Always (dial peer_addr)
    → Ends (IsVerified sha1 info_hash) (download sha1 dial info_hash peer_addr)
unfolding download send_handshake
download-IsVerified sha1 dial info_hash peer_addr dials =
    Ends-bind Always _ (dial peer_addr) _ dials λ c _.
      Ends-bind Always _ (send_handshake info_hash c) _
        (write_left-Ends c.writes_left (handshake info_hash) c)
        λ c' _.
          Ends-bind Always _ (read_handshake info_hash c') _ (read_handshake-Ends sha1 info_hash c')
            (λ r _. negotiate-IsVerified sha1 info_hash r.0 r.1)
