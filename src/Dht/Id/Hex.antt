-- ===== src/Dht/Id/Hex.antt =====
-- Hex texts of identifiers.
use bt_dht_crawler.Prelude.{
  ℕ, ◌+◌, ◌*◌, ◌<◌, ◌≡◌, refl, ◌∙◌, [], ◌∷◌, Bytes, length, All, ok, arith, some,
}
use Prim.Native.Nat.{◌/◌, ◌%◌}
use bt_dht_crawler.Dht.Id.{
  NodeId, IsNodeId, hex, hex_digit, hex_value, decode_hex, from_hex, join_digits,
}

hex_value-hex_digit : (n : ℕ) → n < 16 → hex_value (hex_digit n) ≡ some n
unfolding hex_value hex_digit
hex_value-hex_digit n h = ground arith

pub decode_hex-hex : (bs : Bytes) → All (λ b. b < 256) bs → decode_hex (hex bs) ≡ ok bs
unfolding decode_hex hex join_digits
decode_hex-hex [] h = refl
decode_hex-hex (b ∷ bs) h =
    let back : b / 16 * 16 + b % 16 ≡ b = omega arith in
    rw (
      hex_value-hex_digit (b / 16) (omega arith),
      hex_value-hex_digit (b % 16) (omega arith),
      decode_hex-hex bs h.1,
      back,
    )

pub length-hex : (bs : Bytes) → length (hex bs) ≡ length bs * 2
unfolding hex
length-hex [] = refl
length-hex (b ∷ bs) = omega (arith, length-hex bs)

from_hex-decode_hex : (s : Bytes) → length s ≡ 40 → from_hex s ≡ decode_hex s
unfolding from_hex
from_hex-decode_hex s h = ground arith

-- `FromHex` reads back what `Hex` writes, of every identifier of 20 bytes.
pub from_hex-hex : (id : NodeId) → IsNodeId id → from_hex (hex id) ≡ ok id
from_hex-hex id h =
    from_hex-decode_hex (hex id) (omega (arith, length-hex id, h.size))
    ∙ decode_hex-hex id h.in_range
