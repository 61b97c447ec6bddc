-- ===== src/Bt/Metadata/Session/Opening.antt =====
-- Up to the transfer: what a peer sends first, and where `Download` stands behind it.
use bt_dht_crawler.Prelude.{
  ◌+◌, ◌≤◌, ◌<◌, ◌≡◌, refl, sym, ap, ◌∙◌, subst, true, List, [], ◌∷◌, ◌++◌, Bytes, codes,
  bytes_eq_refl, length, All, Outcome, ok, ◌>>=◌, arith,
}
use bt_dht_crawler.Prelude.Int.{ℤ, pos, IsInt64}
use bt_dht_crawler.Bt.Value.{dict, int64, from_list}
use bt_dht_crawler.Bt.Encode.{encode}
use bt_dht_crawler.Bt.Metadata.Wire.{Conn, send_ext_message}
use bt_dht_crawler.Bt.Metadata.Wire.Frames.{
  Message, ext, text_of, IsSendable, traffic, write_left-sent, send_ext_message-sent,
}
use bt_dht_crawler.Bt.Metadata.Handshake.{
  handshake, read_handshake, send_handshake, send_ext_handshake, read_ext_handshake,
}
use bt_dht_crawler.Bt.Metadata.Handshake.Exchange.{
  ext_fields, IsBefore, read_handshake-with, handshake_with, read_ext_handshake-reads,
}
use bt_dht_crawler.Bt.Metadata.Session.{supports_extensions, fetch, negotiate, download}

hello_text :
    (payload : Bytes) × (encode (
        dict (
          from_list
            ((codes "m", dict (from_list ((codes "ut_metadata", int64 (pos 1)) ∷ []))) ∷ [])))
      ≡ ok payload)
unfolding encode from_list
hello_text = (_, refl)

-- Our extension handshake leaves what the peer sends as it is.
send_ext_handshake-sent :
    (c : Conn)
    → 0 < c.writes_left
    → (c' : Conn) × (send_ext_handshake c ≡ ok c')
      × (c'.incoming ≡ c.incoming)
      × (c'.writes_left + 1 ≡ c.writes_left)
unfolding send_ext_handshake
send_ext_handshake-sent c h =
    let (payload, e) = hello_text in
    let (c', sent, same, left, log) = send_ext_message-sent 0 payload c h in
    (c', ap (λ m. m >>= λ text. send_ext_message 0 text c) e ∙ sent, same, left)

-- What a peer sends first: its handshake, other messages, and its extension handshake `hello`.
abbrev pub opening : Bytes → Bytes → Bytes → List Message → Bytes → Bytes → Bytes
opening extensions peer info_hash before hello rest =
    handshake_with extensions peer info_hash ++ (traffic before ++ (text_of (ext 0 hello) ++ rest))

-- A peer with these reserved bytes, among them the extension bit, with an identifier of 20 bytes, and with this
-- identifier of ut_metadata and this size of the metadata opens the exchange.
pub record Greeting (extensions peer : Bytes) (id size : ℤ) (before : List Message) (hello : Bytes)
    : Type 0 where
  pub eight : length extensions ≡ 8
  pub extended : supports_extensions extensions ≡ true
  pub twenty : length peer ≡ 20
  pub id_fits : IsInt64 id
  pub size_fits : IsInt64 size
  pub others : All IsBefore before
  pub encoded : encode (dict (from_list (ext_fields id size))) ≡ ok hello
  pub sendable : IsSendable (ext 0 hello)

-- A connection to a peer with this info hash, which has room for the two handshakes.
pub record Answered (dial : Bytes → Outcome Conn) (info_hash peer_addr incoming : Bytes) (c : Conn)
    : Type 0 where
  pub dialled : dial peer_addr ≡ ok c
  pub hash_size : length info_hash ≡ 20
  pub room : 2 ≤ c.writes_left
  pub arriving : c.incoming ≡ incoming

Greeting-read :
    (extensions peer : Bytes) (id size : ℤ) (before : List Message) (hello rest : Bytes) (c : Conn)
    → Greeting extensions peer id size before hello
    → c.incoming ≡ traffic before ++ (text_of (ext 0 hello) ++ rest)
    → read_ext_handshake c ≡ ok ((id, size), record c { incoming = rest })
Greeting-read extensions peer id size before hello rest c g e =
    let (text, sent, reads) =
      read_ext_handshake-reads id size before rest g.id_fits g.size_fits g.others in
    let same : text ≡ hello = cc (sym sent ∙ g.encoded) in
    reads (subst (λ t. IsSendable (ext 0 t)) (sym same) g.sendable) c
      (e ∙ ap (λ t. traffic before ++ (text_of (ext 0 t) ++ rest)) (sym same))

module _ (sha1 : Bytes → Bytes) (dial : Bytes → Outcome Conn) (info_hash peer_addr : Bytes) where
  -- Behind the two handshakes, what the peer announced is fetched.
  pub download-negotiated :
      (extensions peer : Bytes) (id size : ℤ) (before : List Message) (hello rest : Bytes)
      (c : Conn)
      → Answered dial info_hash peer_addr (opening extensions peer info_hash before hello rest) c
      → Greeting extensions peer id size before hello
      → (c' : Conn) × (download sha1 dial info_hash peer_addr ≡ fetch sha1 info_hash id size c')
        × (c'.incoming ≡ rest)
        × (c'.writes_left + 2 ≡ c.writes_left)
  unfolding download send_handshake negotiate
  download-negotiated extensions peer id size before hello rest c a g =
      let tail : Bytes = traffic before ++ (text_of (ext 0 hello) ++ rest) in
      let (c1, wrote, same1, left1, log1) =
        write_left-sent c.writes_left (handshake info_hash) c (omega (arith, a.room)) in
      let shook : read_handshake info_hash c1 ≡ ok (extensions, record c1 { incoming = tail }) =
        read_handshake-with extensions peer info_hash info_hash tail c1 g.eight g.twenty a.hash_size
          (same1 ∙ a.arriving)
        ∙ (rw (bytes_eq_refl info_hash) refl) in
      let (c3, greeted, same3, left3) =
        send_ext_handshake-sent (record c1 { incoming = tail }) (omega (arith, a.room, left1)) in
      let heard = Greeting-read extensions peer id size before hello rest c3 g same3 in
      (
        record c3 { incoming = rest },
        rw (a.dialled, ◌>>=◌, wrote, shook, g.extended, greeted, heard) refl,
        refl,
        omega (arith, left1, left3),
      )
