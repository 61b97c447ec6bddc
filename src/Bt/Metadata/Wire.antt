-- ===== src/Bt/Metadata/Wire.antt =====
-- internal/bt/metadata.go: the connection, and the frames of the peer protocol on it.
pub mod Frames
use bt_dht_crawler.Prelude.{
  ℕ, zero, suc, ◌+◌, ◌-◌, ◌*◌, ◌^◌, ◌≤◌, ◌<◌, ◌≡◌, ◌≢◌, refl, sym, ap, ap₂, ◌∙◌, subst, Bool, true,
  false, not, ◌&&◌, ◌||◌, ◌/◌, ◌%◌, List, [], ◌∷◌, ◌++◌, append_assoc, append-nil, map, min, Bytes,
  codes, bytes_eq, bytes_eq→eq, eq→bytes_eq, bytes_eq_refl, bytes_eq-same, times, Option-cases,
  length, length-append, take, drop, get_elem?, set, replicate, length-set, length-take,
  length-drop, take-append, drop-append, All, All-append, Pairwise, Pairwise-middle, ltb, ltb→lt,
  leb, ◌==◌, if◌then◌else◌, Outcome, ok, err, panic, Error, ◌>>=◌, Ends, Ends-bind, Ends-mono,
  Ends-if, Always, Bool-cases, inl, inr, ◌⊎◌, arith, Option, none, some,
}
use bt_dht_crawler.Prelude.Int.{ℤ, pos, negsuc, IsInt64}

-- A connection: what the peer sends before it closes or the deadline passes, what was written, and
-- how many writes succeed before one fails.
pub record Conn : Type 0 where
  pub incoming : Bytes
  pub sent : List Bytes
  pub writes_left : ℕ

-- `conn.Write`
unfoldable pub write_left : ℕ → Bytes → Conn → Outcome Conn
write_left zero bs c = err Error.external
write_left (suc n) bs c = ok (record c { sent = c.sent ++ (bs ∷ []); writes_left = n })

abbrev pub write : Bytes → Conn → Outcome Conn
write bs c = write_left c.writes_left bs c

-- `io.ReadFull` of `n` bytes.
unfoldable pub read_full : ℕ → Conn → Outcome (Bytes × Conn)
read_full n c =
    if ltb (length c.incoming) n
    then err Error.external
    else ok (take n c.incoming, record c { incoming = drop n c.incoming })

-- `binary.BigEndian.PutUint32` and `Uint32`.
unfoldable pub put_uint32 : ℕ → Bytes
put_uint32 n = n % 2 ^ 32 / 2 ^ 24 ∷ n % 2 ^ 24 / 2 ^ 16 ∷ n % 2 ^ 16 / 2 ^ 8 ∷ n % 2 ^ 8 ∷ []

unfoldable pub get_uint32 : Bytes → ℕ
get_uint32 (a ∷ b ∷ c ∷ d ∷ rest) = a * 2 ^ 24 + b * 2 ^ 16 + c * 2 ^ 8 + d
get_uint32 _ = 0

abbrev pub ext_type : ℕ
ext_type = 20

abbrev pub max_message : ℕ
max_message = 1024 * 1024 * 10

-- The buffer of `sendExtMessage`.
unfoldable pub ext_frame : ℕ → Bytes → Bytes
unfolding put_uint32
ext_frame ext_id payload = put_uint32 (2 + length payload) ++ (ext_type ∷ ext_id ∷ payload)

-- `sendExtMessage`
unfoldable pub send_ext_message : ℕ → Bytes → Conn → Outcome Conn
unfolding ext_frame write_left
send_ext_message ext_id payload c = write (ext_frame ext_id payload) c

abbrev pub Frame : Type 0
Frame = ℕ × Bytes

-- `msg[0]` and `msg[1:]`.
unfoldable pub split_message : Bytes → Frame
split_message [] = (0, [])
split_message (t ∷ payload) = (t, payload)

-- What follows the length; a keep-alive reads as type 0 with no payload.
unfoldable pub read_body : ℕ → Conn → Outcome (Frame × Conn)
unfolding read_full split_message
read_body n c =
    if n == 0
    then ok ((0, []), c)
    else if ltb max_message n
    then err Error.too_large
    else (read_full n c >>= λ r. ok (split_message r.0, r.1))

-- `readMessage`
unfoldable pub read_message : Conn → Outcome (Frame × Conn)
unfolding read_body read_full get_uint32
read_message c = read_full 4 c >>= λ r. read_body (get_uint32 r.0) r.1

-- `int(extMsgID) == id` for a byte.
unfoldable pub is_int : ℤ → ℕ → Bool
is_int (pos n) b = n == b
is_int (negsuc n) b = false

-- The tests that both reading loops make: the type of an extension message, a payload of at least one
-- byte, and the identifier that is waited for. `some` holds what follows that identifier.
unfoldable pub wanted : ℤ → Frame → Option Bytes
unfolding is_int
wanted id (t, []) = none
wanted id (t, e ∷ body) = if (t == ext_type) && is_int id e then some body else none
