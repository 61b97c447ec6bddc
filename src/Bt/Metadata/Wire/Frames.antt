-- ===== src/Bt/Metadata/Wire/Frames.antt =====
-- Reading messages back from the bytes of a connection.
use bt_dht_crawler.Prelude.{
  ℕ, zero, suc, ◌+◌, ◌^◌, ◌≤◌, ◌<◌, ◌≡◌, refl, ap, ap₂, ◌∙◌, true, false, List, [], ◌∷◌, ◌++◌,
  append_assoc, Bytes, length, length-append, take, drop, length-drop, take-append, drop-append,
  ltb, lt→ltb, not_ltb→le, le→not_ltb, ◌==◌, ok, err, Error, Ends, Ends-bind, Ends-mono, Ends-if,
  Bool-cases, inl, inr, arith,
}
use bt_dht_crawler.Bt.Metadata.Wire.{
  Conn, Frame, read_full, put_uint32, get_uint32, ext_type, max_message, ext_frame, split_message,
  write_left, send_ext_message, read_body, read_message,
}

-- What a peer may send: a keep-alive, a message of the protocol, or an extension message.
pub data Message : Type 0 where
  keep_alive : Message
  plain ext : ℕ → Bytes → Message

-- As bytes, and as `readMessage` returns it.
unfoldable pub text_of : Message → Bytes
unfolding put_uint32
text_of keep_alive = put_uint32 0
text_of (plain t payload) = put_uint32 (suc (length payload)) ++ (t ∷ payload)
text_of (ext id payload) = ext_frame id payload

abbrev pub frame_of : Message → Frame
frame_of keep_alive = (0, [])
frame_of (plain t payload) = (t, payload)
frame_of (ext id payload) = (ext_type, id ∷ payload)

-- The size is below the limit.
abbrev pub IsSendable : Message → Type 0
IsSendable keep_alive = Unit {0}
IsSendable (plain t payload) = length payload + 1 ≤ max_message
IsSendable (ext id payload) = length payload + 2 ≤ max_message

-- The messages one after the other.
unfoldable pub traffic : List Message → Bytes
traffic [] = []
traffic (m ∷ ms) = text_of m ++ traffic ms

get_uint32-put_uint32 : (n : ℕ) → n < 2 ^ 32 → get_uint32 (put_uint32 n) ≡ n
unfolding get_uint32 put_uint32
get_uint32-put_uint32 n h = omega arith

-- `ReadFull` of what stands first.
pub read_full-append :
    (bs rest : Bytes) (c : Conn)
    → c.incoming ≡ bs ++ rest
    → read_full (length bs) c ≡ ok (bs, record c { incoming = rest })
unfolding read_full
read_full-append bs rest c e =
    let enough : ltb (length c.incoming) (length bs) ≡ false =
      le→not_ltb (length c.incoming) (length bs)
        (omega (arith, ap length e, length-append bs rest)) in
    rw enough (ap ok (ap₂ (λ (x y : Bytes). (x, with_incoming y)) front back))
  where
    with_incoming : Bytes → Conn
    with_incoming y = record c { incoming = y }

    front : take (length bs) c.incoming ≡ bs
    front = ap (take (length bs)) e ∙ take-append bs rest

    back : drop (length bs) c.incoming ≡ rest
    back = ap (drop (length bs)) e ∙ drop-append bs rest

read_message-raw :
    (t : ℕ) (payload rest : Bytes) (c : Conn)
    → length payload + 1 ≤ max_message
    → c.incoming ≡ put_uint32 (suc (length payload)) ++ ((t ∷ payload) ++ rest)
    → read_message c ≡ ok ((t, payload), record c { incoming = rest })
unfolding read_message
read_message-raw t payload rest c small e =
    let n : ℕ = suc (length payload) in
    let first : read_full 4 c ≡ ok (put_uint32 n, record c { incoming = (t ∷ payload) ++ rest }) =
      unfold put_uint32 in read_full-append (put_uint32 n) ((t ∷ payload) ++ rest) c e in
    let second : read_full n (record c { incoming = (t ∷ payload) ++ rest })
        ≡ ok (t ∷ payload, record c { incoming = rest }) =
      read_full-append (t ∷ payload) rest (record c { incoming = (t ∷ payload) ++ rest }) refl in
    rw (first, get_uint32-put_uint32 n (omega arith)) (body n second (omega arith))
  where
    body :
        (n : ℕ)
        → read_full n (record c { incoming = (t ∷ payload) ++ rest })
          ≡ ok (t ∷ payload, record c { incoming = rest })
        → n ≡ suc (length payload)
        → read_body n (record c { incoming = (t ∷ payload) ++ rest })
          ≡ ok ((t, payload), record c { incoming = rest })
    body n second m = unfold read_body split_message in ground (arith, second)

read_message-keep_alive :
    (rest : Bytes) (c : Conn)
    → c.incoming ≡ put_uint32 0 ++ rest
    → read_message c ≡ ok ((0, []), record c { incoming = rest })
unfolding read_message
read_message-keep_alive rest c e =
    let first : read_full 4 c ≡ ok (put_uint32 0, record c { incoming = rest }) =
      unfold put_uint32 in read_full-append (put_uint32 0) rest c e in
    rw (first, get_uint32-put_uint32 0 (omega arith)) (unfold read_body in refl)

-- A message whose size is below the limit is read back whole, whatever follows it, and what follows is
-- what is left to read.
pub read_message-text_of :
    (m : Message) (rest : Bytes) (c : Conn)
    → IsSendable m
    → c.incoming ≡ text_of m ++ rest
    → read_message c ≡ ok (frame_of m, record c { incoming = rest })
unfolding text_of ext_frame
read_message-text_of keep_alive rest c h e = read_message-keep_alive rest c e
read_message-text_of (plain t payload) rest c h e =
    read_message-raw t payload rest c h
      (e ∙ append_assoc (put_uint32 (suc (length payload))) (t ∷ payload) rest)
read_message-text_of (ext id payload) rest c h e =
    let size : 2 + length payload ≡ suc (length (id ∷ payload)) = omega arith in
    let e' : c.incoming
        ≡ put_uint32 (suc (length (id ∷ payload))) ++ ((ext_type ∷ id ∷ payload) ++ rest) =
      e
      ∙ ap (λ n. (put_uint32 n ++ (ext_type ∷ id ∷ payload)) ++ rest) size
      ∙ append_assoc (put_uint32 (suc (length (id ∷ payload)))) (ext_type ∷ id ∷ payload) rest in
    read_message-raw ext_type (id ∷ payload) rest c (omega arith) e'

pub read_full-Ends :
    (n : ℕ) (c : Conn) → Ends (λ r. length r.1.incoming + n ≡ length c.incoming) (read_full n c)
unfolding read_full
read_full-Ends n c = elim (Bool-cases (ltb (length c.incoming) n)) [
  | inl e ↦ rw e tt
  | inr e ↦ rw e (omega (arith, length-drop n c.incoming, not_ltb→le (length c.incoming) n e))
]

read_body-Ends :
    (n : ℕ) (c : Conn) → Ends (λ r. length r.1.incoming ≤ length c.incoming) (read_body n c)
unfolding read_body
read_body-Ends n c = Ends-if _ (n == 0) _ _ (omega arith) (
    Ends-if _ (ltb max_message n) _ _ tt
      (Ends-bind _ _ (read_full n c) _ (read_full-Ends n c) λ r h. omega arith))

-- Every message takes at least four bytes.
pub read_message-Ends :
    (c : Conn) → Ends (λ r. length r.1.incoming < length c.incoming) (read_message c)
unfolding read_message
read_message-Ends c = Ends-bind _ _ (read_full 4 c) _ (read_full-Ends 4 c) λ r h.
    Ends-mono _ _ (read_body (get_uint32 r.0) r.1) (λ q k. omega arith)
      (read_body-Ends (get_uint32 r.0) r.1)

-- At the end of what a peer sends a read fails.
pub read_message-end : (c : Conn) → c.incoming ≡ [] → read_message c ≡ err Error.external
unfolding read_message read_full
read_message-end c e =
    let none_left : length c.incoming ≡ 0 = ap length e in
    let short : ltb (length c.incoming) 4 ≡ true = lt→ltb (length c.incoming) 4 (omega arith) in
    rw short refl

pub write_left-sent :
    (w : ℕ) (bs : Bytes) (c : Conn)
    → 0 < w
    → (c' : Conn) × (write_left w bs c ≡ ok c')
      × (c'.incoming ≡ c.incoming)
      × (c'.writes_left + 1 ≡ w)
      × (c'.sent ≡ c.sent ++ (bs ∷ []))
unfolding write_left
write_left-sent zero bs c h = absurd (omega arith)
write_left-sent (suc n) bs c h =
    (record c { sent = c.sent ++ (bs ∷ []); writes_left = n }, refl, refl, omega arith, refl)

-- A write that does not fail leaves what the peer sends as it is.
pub send_ext_message-sent :
    (id : ℕ) (payload : Bytes) (c : Conn)
    → 0 < c.writes_left
    → (c' : Conn) × (send_ext_message id payload c ≡ ok c')
      × (c'.incoming ≡ c.incoming)
      × (c'.writes_left + 1 ≡ c.writes_left)
      × (c'.sent ≡ c.sent ++ (ext_frame id payload ∷ []))
unfolding send_ext_message
send_ext_message-sent id payload c h = write_left-sent c.writes_left (ext_frame id payload) c h

-- A message takes up at least one byte.
pub length-traffic : (ms : List Message) → length ms ≤ length (traffic ms)
unfolding traffic
length-traffic [] = omega arith
length-traffic (m ∷ ms) =
    omega (arith, length-append (text_of m) (traffic ms), some_bytes m, length-traffic ms)
  where
    some_bytes : (m : Message) → 0 < length (text_of m)
    some_bytes keep_alive = unfold text_of put_uint32 in omega arith
    some_bytes (plain t payload) = unfold text_of put_uint32 in omega arith
    some_bytes (ext id payload) = unfold text_of ext_frame put_uint32 in omega arith
