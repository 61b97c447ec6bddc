-- ===== src/Bt/Metadata/Handshake.antt =====
-- internal/bt/metadata.go: the two handshakes.
pub mod Exchange
use bt_dht_crawler.Prelude.{
  ℕ, zero, suc, ◌+◌, ◌-◌, ◌*◌, ◌^◌, ◌≤◌, ◌<◌, ◌≡◌, ◌≢◌, refl, sym, ap, ap₂, ◌∙◌, subst, Bool, true,
  false, not, ◌&&◌, ◌||◌, ◌/◌, ◌%◌, List, [], ◌∷◌, ◌++◌, append_assoc, append-nil, map, min, Bytes,
  codes, bytes_eq, bytes_eq→eq, eq→bytes_eq, bytes_eq_refl, bytes_eq-same, times, Option-cases,
  length, length-append, take, drop, get_elem?, set, replicate, length-set, length-take,
  length-drop, take-append, drop-append, All, All-append, Pairwise, Pairwise-middle, ltb, ltb→lt,
  leb, ◌==◌, if◌then◌else◌, Outcome, ok, err, panic, Error, ◌>>=◌, Ends, Ends-bind, Ends-mono,
  Ends-if, Always, Bool-cases, inl, inr, ◌⊎◌, arith, Option, none, some,
}
use bt_dht_crawler.Prelude.Int.{ℤ, pos, negsuc, IsInt64}
use bt_dht_crawler.Bt.Value.{Value, Dict, dict, int64, from_list}
use bt_dht_crawler.Bt.Encode.{encode}
use bt_dht_crawler.Bt.Decode.{decode_top_dict}
use bt_dht_crawler.Bt.Access.{get_dict, get_int}
use bt_dht_crawler.Bt.Metadata.Wire.{
  Conn, Frame, write_left, write, read_full, read_message, send_ext_message, wanted,
}

abbrev pub protocol_name : Bytes
protocol_name = codes "BitTorrent protocol"

abbrev pub extension_bit : ℕ
extension_bit = 0x10

-- The reserved bytes with the extension bit.
abbrev pub reserved : Bytes
reserved = 0 ∷ 0 ∷ 0 ∷ 0 ∷ 0 ∷ extension_bit ∷ 0 ∷ 0 ∷ []

abbrev pub peer_id : Bytes
peer_id = codes "-GO0001-123456789012"

-- The buffer of `sendHandshake`; the info hash is an array of 20 bytes.
unfoldable pub handshake : Bytes → Bytes
handshake info_hash = 19 ∷ protocol_name ++ (reserved ++ (info_hash ++ peer_id))

-- `sendHandshake`
unfoldable pub send_handshake : Bytes → Conn → Outcome Conn
unfolding handshake write_left
send_handshake info_hash c = write (handshake info_hash) c

unfoldable pub head_byte : Bytes → ℕ
head_byte [] = 0
head_byte (b ∷ bs) = b

-- `readHandshake`: the reserved bytes of the peer.
unfoldable pub read_handshake : Bytes → Conn → Outcome (Bytes × Conn)
unfolding read_full head_byte
read_handshake info_hash c = read_full 1 c >>= λ pstrlen.
    read_full (head_byte pstrlen.0) pstrlen.1 >>= λ pstr. read_full 8 pstr.1 >>= λ extensions.
    read_full 20 extensions.1 >>= λ hash.
    if bytes_eq hash.0 info_hash
    then (read_full 20 hash.1 >>= λ peer. ok (extensions.0, peer.1))
    else err Error.wrong_hash

-- `sendExtHandshake`
unfoldable pub send_ext_handshake : Conn → Outcome Conn
unfolding encode send_ext_message from_list
send_ext_handshake c =
    encode (
      dict (
        from_list ((codes "m", dict (from_list ((codes "ut_metadata", int64 (pos 1)) ∷ []))) ∷ [])))
    >>= λ payload. send_ext_message 0 payload c

abbrev int_or_zero : Option ℤ → ℤ
int_or_zero none = pos 0
int_or_zero (some z) = z

abbrev metadata_id_in : Option Dict → ℤ
metadata_id_in none = pos 0
metadata_id_in (some m) = int_or_zero (get_int m (codes "ut_metadata"))

-- The peer's identifier of ut_metadata and the size, each 0 if it is not there.
unfoldable pub parse_ext_handshake : Bytes → Outcome (ℤ × ℤ)
unfolding get_dict get_int
parse_ext_handshake payload = decode_top_dict payload >>= λ d.
    ok (metadata_id_in (get_dict d (codes "m")), int_or_zero (get_int d (codes "metadata_size")))

-- The loop of `readExtHandshake`.
unfoldable pub ext_handshake_loop : ℕ → Conn → Outcome ((ℤ × ℤ) × Conn)
unfolding wanted parse_ext_handshake
ext_handshake_loop zero c = err Error.out_of_fuel
ext_handshake_loop (suc f) c = read_message c >>= λ m. elim (wanted (pos 0) m.0) [
  | none ↦ ext_handshake_loop f m.1
  | some body ↦ parse_ext_handshake body >>= λ r. ok (r, m.1)
]

-- `readExtHandshake`: every round reads at least four bytes.
unfoldable pub read_ext_handshake : Conn → Outcome ((ℤ × ℤ) × Conn)
unfolding ext_handshake_loop
read_ext_handshake c = ext_handshake_loop (suc (length c.incoming)) c
