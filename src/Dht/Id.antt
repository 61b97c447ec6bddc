-- ===== src/Dht/Id.antt =====
-- internal/dht/id.go: 160-bit identifiers and their XOR distance.
pub mod Distance
pub mod Order
pub mod Bucket
pub mod Hex
pub mod Generate
use bt_dht_crawler.Prelude.{
  ℕ, zero, suc, ◌+◌, ◌-◌, ◌*◌, ◌^◌, ◌≤◌, ◌<◌, ◌≡◌, ◌≢◌, refl, sym, ap, ap₂, ◌∙◌, subst, Bool, true,
  false, ◌&&◌, ◌/◌, ◌%◌, List, [], ◌∷◌, ◌++◌, append_assoc, append-nil, map, Bytes, bytes_eq,
  bytes_eq→eq, length, length-append, take, drop, take-append, drop-append, All, All-append,
  Pairwise, Pairwise-middle, ltb, leb, ◌==◌, if◌then◌else◌, Outcome, ok, err, panic, Error, ◌>>=◌,
  Bool-cases, inl, inr, ◌⊎◌, arith, Option, none, some,
}
use Prim.Native.Nat.{bit_and, bit_xor}
use bt_dht_crawler.Prelude.Int.{ℤ, pos, negsuc}

abbrev pub id_length : ℕ
id_length = 20

-- A `NodeID` is an array of 20 bytes; `IsNodeId` says so of a list.
abbrev pub NodeId : Type 0
NodeId = Bytes

pub record IsNodeId (id : NodeId) : Type 0 where
  pub size : length id ≡ id_length
  pub in_range : All (λ b. b < 256) id

-- The array that `var id NodeID` declares.
abbrev pub zero_id : NodeId
zero_id = 0 ∷ 0 ∷ 0 ∷ 0 ∷ 0 ∷ 0 ∷ 0 ∷ 0 ∷ 0 ∷ 0 ∷ 0 ∷ 0 ∷ 0 ∷ 0 ∷ 0 ∷ 0 ∷ 0 ∷ 0 ∷ 0 ∷ 0 ∷ []

-- `Distance`: the arrays have one length.
unfoldable pub distance : NodeId → NodeId → NodeId
distance [] bs = []
distance (a ∷ xs) [] = []
distance (a ∷ xs) (b ∷ bs) = bit_xor a b ∷ distance xs bs

-- `Less`: the first difference decides. The arrays have one length, so the second clause is never
-- reached.
unfoldable pub less : NodeId → NodeId → Bool
less [] [] = false
less [] (b ∷ bs) = true
less (a ∷ xs) [] = false
less (a ∷ xs) (b ∷ bs) = if ltb a b then true else if ltb b a then false else less xs bs

-- The loop over the mask, which has eight values before it is 0.
unfoldable pub mask_zeros : ℕ → ℕ → ℕ → ℕ
mask_zeros zero mask b = 0
mask_zeros (suc f) mask b =
    let more = suc (mask_zeros f (mask / 2) b) in
    if mask == 0 then 0 else if bit_and b mask == 0 then more else 0

unfoldable pub leading_zeros : NodeId → ℕ
unfolding mask_zeros
leading_zeros [] = 0
leading_zeros (b ∷ bs) = if b == 0 then 8 + leading_zeros bs else mask_zeros 8 0x80 b

unfoldable pub bucket_index : NodeId → NodeId → ℕ
bucket_index local remote =
    let lz = leading_zeros (distance local remote) in
    if leb (id_length * 8) lz then 0 else id_length * 8 - 1 - lz

-- A digit of `hex.EncodeToString`.
unfoldable pub hex_digit : ℕ → ℕ
hex_digit n = if ltb n 10 then b'0' + n else b'a' + (n - 10)

-- `Hex`
unfoldable pub hex : NodeId → Bytes
unfolding hex_digit
hex [] = []
hex (b ∷ bs) = hex_digit (b / 16) ∷ hex_digit (b % 16) ∷ hex bs

-- `String`
unfoldable pub short_string : NodeId → Bytes
short_string id = take 8 (hex id) ++ (b'.' ∷ b'.' ∷ b'.' ∷ [])

-- A digit that `hex.DecodeString` takes, in either case.
unfoldable pub hex_value : ℕ → Option ℕ
hex_value c =
    if leb b'0' c && leb c b'9'
    then some (c - b'0')
    else if leb b'a' c && leb c b'f'
    then some (c - b'a' + 10)
    else if leb b'A' c && leb c b'F'
    then some (c - b'A' + 10)
    else none

join_digits : Option ℕ → Option ℕ → Outcome ℕ
join_digits (some h) (some l) = ok (h * 16 + l)
join_digits _ _ = err Error.bad_hex

-- `hex.DecodeString`
unfoldable pub decode_hex : Bytes → Outcome Bytes
unfolding join_digits hex_value
decode_hex [] = ok []
decode_hex (c ∷ []) = err Error.bad_hex
decode_hex (c ∷ d ∷ s) =
    join_digits (hex_value c) (hex_value d) >>= λ b. decode_hex s >>= λ bs. ok (b ∷ bs)

-- `FromHex`
unfoldable pub from_hex : Bytes → Outcome NodeId
from_hex s = if length s == id_length * 2 then decode_hex s else err Error.bad_length

-- `FromBytes`
unfoldable pub from_bytes : Bytes → Outcome NodeId
from_bytes b = if length b == id_length then ok b else err Error.bad_length

-- `IsZero`
unfoldable pub is_zero : NodeId → Bool
is_zero [] = true
is_zero (b ∷ bs) = (b == 0) && is_zero bs

-- `id[:]`
abbrev pub id_bytes : NodeId → Bytes
id_bytes id = id
