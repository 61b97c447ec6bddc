-- ===== src/Bt/Metadata/Handshake/Exchange.antt =====
-- The two handshakes with a peer that speaks the protocol.
use bt_dht_crawler.Prelude.{
  ℕ, zero, suc, ◌<◌, ◌≡◌, refl, sym, ap, ◌∙◌, List, [], ◌∷◌, ◌++◌, append_assoc, append-nil, Bytes,
  codes, bytes_eq, length, length-append, All, if◌then◌else◌, ok, err, Error, ◌>>=◌, Ends,
  Ends-bind, Always, arith, Option, none, some,
}
use bt_dht_crawler.Prelude.Int.{ℤ, pos, IsInt64}
use bt_dht_crawler.Bt.Value.{Value, Dict, dict, int64, from_list, lookup}
use bt_dht_crawler.Bt.Encode.{encode, bytes_less}
use bt_dht_crawler.Bt.Decode.{decode, decode_reader, decode_top_dict}
use bt_dht_crawler.Bt.Decode.Total.{decode_top_dict-Ends}
use bt_dht_crawler.Bt.Access.{get_int, get_dict}
use bt_dht_crawler.Bt.Received.{received, IsEncodable}
use bt_dht_crawler.Bt.Literal.{literal-IsEncodable}
use bt_dht_crawler.Bt.RoundTrip.{decode_reader-encode}
use bt_dht_crawler.Bt.RoundTrip.Lookup.{received_map}
use bt_dht_crawler.Bt.Metadata.Wire.{Conn, Frame, read_full, read_message, wanted}
use bt_dht_crawler.Bt.Metadata.Wire.Frames.{
  Message, ext, text_of, frame_of, IsSendable, traffic, read_message-text_of, read_message-Ends,
  read_full-append, length-traffic,
}
use bt_dht_crawler.Bt.Metadata.Handshake.{
  protocol_name, reserved, peer_id, handshake, head_byte, read_handshake, parse_ext_handshake,
  ext_handshake_loop, read_ext_handshake,
}

-- The reads of a handshake, from the bytes of one for `theirs`.
abbrev after_handshake : Bytes → Conn → Conn
after_handshake rest c = record c { incoming = rest }

-- The handshake of a peer with these reserved bytes and this identifier.
abbrev pub handshake_with : Bytes → Bytes → Bytes → Bytes
handshake_with extensions peer info_hash = 19 ∷ protocol_name ++ (extensions ++ (info_hash ++ peer))

-- From the handshake of any peer for an info hash of 20 bytes, `readHandshake` for the same hash returns the
-- reserved bytes; for another hash it fails.
pub read_handshake-with :
    (extensions peer theirs ours rest : Bytes) (c : Conn)
    → length extensions ≡ 8
    → length peer ≡ 20
    → length theirs ≡ 20
    → c.incoming ≡ handshake_with extensions peer theirs ++ rest
    → read_handshake ours c ≡ (
        if bytes_eq theirs ours
        then ok (extensions, record c { incoming = rest })
        else err Error.wrong_hash)
unfolding read_handshake head_byte
read_handshake-with extensions peer theirs ours rest c eight twenty size e =
    let tail : Bytes = theirs ++ (peer ++ rest) in
    let e1 : c.incoming ≡ (19 ∷ []) ++ (protocol_name ++ (extensions ++ tail)) =
      e
      ∙ ap (λ w. 19 ∷ (protocol_name ++ w)) (append_assoc extensions (theirs ++ peer) rest)
      ∙ ap (λ w. 19 ∷ (protocol_name ++ (extensions ++ w))) (append_assoc theirs peer rest) in
    let r1 = read_full-append (19 ∷ []) (protocol_name ++ (extensions ++ tail)) c e1 in
    let r2 =
      read_full-append protocol_name (extensions ++ tail)
        (after_handshake (protocol_name ++ (extensions ++ tail)) c) refl in
    let r3 : read_full 8 (after_handshake (extensions ++ tail) c)
        ≡ ok (extensions, after_handshake tail c) =
      ap (λ n. read_full n (after_handshake (extensions ++ tail) c)) (sym eight)
      ∙ read_full-append extensions tail (after_handshake (extensions ++ tail) c) refl in
    let r4 : read_full 20 (after_handshake tail c) ≡ ok (theirs, after_handshake (peer ++ rest) c) =
      ap (λ n. read_full n (after_handshake tail c)) (sym size)
      ∙ read_full-append theirs (peer ++ rest) (after_handshake tail c) refl in
    let r5 : read_full 20 (after_handshake (peer ++ rest) c) ≡ ok (peer, after_handshake rest c) =
      ap (λ n. read_full n (after_handshake (peer ++ rest) c)) (sym twenty)
      ∙ read_full-append peer rest (after_handshake (peer ++ rest) c) refl in
    rw (r1, r2, r3, r4, r5) refl

-- What `sendHandshake` writes for an info hash of 20 bytes, `readHandshake` takes for the same hash and returns
-- its reserved bytes; for another hash it fails.
pub read_handshake-handshake :
    (theirs ours rest : Bytes) (c : Conn)
    → length theirs ≡ 20
    → c.incoming ≡ handshake theirs ++ rest
    → read_handshake ours c ≡ (
        if bytes_eq theirs ours
        then ok (reserved, record c { incoming = rest })
        else err Error.wrong_hash)
unfolding handshake
read_handshake-handshake theirs ours rest c size e =
    read_handshake-with reserved peer_id theirs ours rest c refl refl size e

-- The extension handshake of a peer: its identifier of ut_metadata, and the size.
abbrev pub ext_fields : ℤ → ℤ → List (Bytes × Value)
ext_fields id size =
    (codes "m", dict (from_list ((codes "ut_metadata", int64 id) ∷ [])))
    ∷ (codes "metadata_size", int64 size)
    ∷ []

ext_fields-IsEncodable :
    (id size : ℤ) → IsInt64 id → IsInt64 size → IsEncodable (dict (from_list (ext_fields id size)))
ext_fields-IsEncodable id size h k =
    literal-IsEncodable (ext_fields id size)
      (
        (
          omega arith,
          literal-IsEncodable ((codes "ut_metadata", int64 id) ∷ []) ((omega arith, h), tt) refl,
        ),
        ((omega arith, k), tt),
      )
      refl

parse_ext_fields :
    (id size : ℤ)
    → IsInt64 id
    → IsInt64 size
    → (e : Bytes) × (encode (dict (from_list (ext_fields id size))) ≡ ok e)
      × (parse_ext_handshake e ≡ ok (id, size))
parse_ext_fields id size h k =
    let d : Dict = from_list (ext_fields id size) in
    let (e, sent, read) = decode_reader-encode (dict d) [] (ext_fields-IsEncodable id size h k) in
    let alone : decode_reader e ≡ ok (received (dict d), []) = rw (append-nil e) at read in
    let top : decode_top_dict e ≡ ok (received_map d) =
      unfold decode_top_dict decode in rw alone (unfold received in refl) in
    (
      e,
      sent,
      unfold parse_ext_handshake in
          rw top (unfold from_list received lookup bytes_less get_int get_dict in refl),
    )

-- The unrelated messages are not the handshake of an extension.
abbrev pub IsBefore : Message → Type 0
IsBefore m = (wanted (pos 0) (frame_of m) ≡ none) × IsSendable m

ext_handshake_loop-reads :
    (f : ℕ) (ms : List Message) (e rest : Bytes) (r : ℤ × ℤ) (c : Conn)
    → length ms < f
    → All IsBefore ms
    → IsSendable (ext 0 e)
    → parse_ext_handshake e ≡ ok r
    → c.incoming ≡ traffic ms ++ (text_of (ext 0 e) ++ rest)
    → ext_handshake_loop f c ≡ ok (r, record c { incoming = rest })
unfolding ext_handshake_loop traffic
ext_handshake_loop-reads zero ms e rest r c fuel before small p q = absurd (omega arith)
ext_handshake_loop-reads (suc f) [] e rest r c fuel before small p q =
    rw (read_message-text_of (ext 0 e) rest c small q, p) refl
ext_handshake_loop-reads (suc f) (m ∷ ms) e rest r c fuel before small p q =
    rw
      (
        read_message-text_of m (traffic ms ++ (text_of (ext 0 e) ++ rest)) c before.0.1
            (q ∙ append_assoc (text_of m) (traffic ms) (text_of (ext 0 e) ++ rest)),
        ◌>>=◌,
        before.0.0,
      )
      (ext_handshake_loop-reads f ms e rest r
        (record c { incoming = traffic ms ++ (text_of (ext 0 e) ++ rest) }) (omega arith) before.1
        small p refl)

-- A peer that sends messages of other kinds and then its extension handshake is understood: its identifier
-- and the size are read, and what follows is left.
pub read_ext_handshake-reads :
    (id size : ℤ) (ms : List Message) (rest : Bytes)
    → IsInt64 id
    → IsInt64 size
    → All IsBefore ms
    → (e : Bytes) × (encode (dict (from_list (ext_fields id size))) ≡ ok e)
      × (IsSendable (ext 0 e)
          → (c : Conn) → c.incoming ≡ traffic ms ++ (text_of (ext 0 e) ++ rest)
          → read_ext_handshake c ≡ ok ((id, size), record c { incoming = rest }))
read_ext_handshake-reads id size ms rest h k before =
    let (e, sent, p) = parse_ext_fields id size h k in
    (
      e,
      sent,
      λ small c q.
          unfold read_ext_handshake in
          ext_handshake_loop-reads (suc (length c.incoming)) ms e rest (id, size) c
            (omega (
              arith,
              ap length q,
              length-append (traffic ms) (text_of (ext 0 e) ++ rest),
              length-traffic ms,
            ))
            before small p q,
    )

ext_handshake_loop-Ends :
    (f : ℕ) (c : Conn) → length c.incoming < f → Ends Always (ext_handshake_loop f c)
unfolding ext_handshake_loop
ext_handshake_loop-Ends zero c h = absurd (omega arith)
ext_handshake_loop-Ends (suc f) c h =
    Ends-bind _ _ (read_message c) _ (read_message-Ends c)
      λ m k. by_test m.0 m.1 (wanted (pos 0) m.0) (ext_handshake_loop-Ends f m.1 (omega arith))
  where
    by_test :
        (m : Frame) (c' : Conn) (o : Option Bytes)
        → Ends Always (ext_handshake_loop f c')
        → Ends Always (elim o [
          | none ↦ ext_handshake_loop f c'
          | some body ↦ parse_ext_handshake body >>= λ r. ok (r, c')
        ])
    by_test m c' none rest = rest
    by_test m c' (some body) rest =
        Ends-bind Always Always (parse_ext_handshake body) _
          (unfold parse_ext_handshake in
            Ends-bind Always Always (decode_top_dict body) _ (decode_top_dict-Ends body)
              (λ d _. tt))
          (λ r _. tt)

-- The fuel of the loop is enough.
pub read_ext_handshake-Ends : (c : Conn) → Ends Always (read_ext_handshake c)
unfolding read_ext_handshake
read_ext_handshake-Ends c = ext_handshake_loop-Ends (suc (length c.incoming)) c (omega arith)
