-- ===== src/Dht/Id/Bucket.antt =====
-- The k-bucket of an identifier, by the size of its distance read as a number.
use bt_dht_crawler.Prelude.{
  ℕ, suc, ◌+◌, ◌-◌, ◌*◌, ◌^◌, ◌≤◌, ◌<◌, ◌≡◌, ◌≢◌, refl, Bool, true, false, ◌&&◌, ◌||◌, [], ◌∷◌,
  Bytes, length, All, ltb, leb, ◌==◌, Bool-cases, inl, inr, arith,
}
use native.Mathlib.Nat.{mul-le-mul_right}
use bt_dht_crawler.Prelude.Pow.{passes_below, passes_below-passes, pow-add}
use bt_dht_crawler.Dht.Id.{
  NodeId, IsNodeId, distance, is_zero, mask_zeros, leading_zeros, bucket_index,
}
use bt_dht_crawler.Dht.Id.Distance.{distance-IsNodeId}

-- An array of bytes as a number, most significant byte first.
unfoldable pub value : Bytes → ℕ
value [] = 0
value (b ∷ bs) = b * 2 ^ (8 * length bs) + value bs

pub value-lt : (bs : Bytes) → All (λ b. b < 256) bs → value bs < 2 ^ (8 * length bs)
unfolding value
value-lt [] h = omega arith
value-lt (b ∷ bs) h =
    let w : 8 * suc (length bs) ≡ 8 + 8 * length bs = omega arith in
    let v = value-lt bs h.1 in
    let m : b * 2 ^ (8 * length bs) ≤ 255 * 2 ^ (8 * length bs) = grind arith in
    rw (w, pow-add 8 (8 * length bs)) (omega arith)

-- The highest set bit of a byte.
byte_test : ℕ → Bool
byte_test b =
    let z = mask_zeros 8 0x80 b in
    (b == 0) || (leb z 7 && leb (2 ^ (7 - z)) b && ltb b (2 * 2 ^ (7 - z)))

byte_table : passes_below byte_test 256 ≡ true
unfolding passes_below byte_test mask_zeros
byte_table = refl

byte_bits :
    (b : ℕ)
    → b < 256
    → b ≢ 0
    → (mask_zeros 8 0x80 b ≤ 7)
      × (2 ^ (7 - mask_zeros 8 0x80 b) ≤ b)
      × (b < 2 * 2 ^ (7 - mask_zeros 8 0x80 b))
byte_bits b h ne = read_test (passes_below-passes byte_test 256 b byte_table h)
  where
    read_test :
        byte_test b ≡ true
        → (mask_zeros 8 0x80 b ≤ 7)
          × (2 ^ (7 - mask_zeros 8 0x80 b) ≤ b)
          × (b < 2 * 2 ^ (7 - mask_zeros 8 0x80 b))
    read_test t = unfold byte_test in ground arith

-- `2 ^ e ≤ value bs < 2 ^ (e + 1)` for the number `e` of bits behind the leading zeros and one.
abbrev pub TopBit : ℕ → Bytes → Type 0
TopBit e bs =
    (e + 1 + leading_zeros bs ≡ 8 * length bs) × (2 ^ e ≤ value bs) × (value bs < 2 * 2 ^ e)

scaled : (b v q p : ℕ) → q ≤ b → b < 2 * q → v < p → (q * p ≤ b * p + v) × (b * p + v < 2 * (q * p))
scaled b v q p h l k =
    let low : q * p ≤ b * p = mul-le-mul_right p h in
    let high : suc b * p ≤ 2 * q * p = mul-le-mul_right p l in (omega arith, omega arith)

TopBit-here :
    (b : ℕ) (bs : Bytes) (z : ℕ)
    → mask_zeros 8 0x80 b ≡ z
    → b ≢ 0
    → z ≤ 7
    → 2 ^ (7 - z) ≤ b
    → b < 2 * 2 ^ (7 - z)
    → All (λ c. c < 256) bs
    → TopBit (7 - z + 8 * length bs) (b ∷ bs)
TopBit-here b bs z ez ne hz lo hi h =
    let zeros : leading_zeros (b ∷ bs) ≡ z = unfold leading_zeros in ground arith in
    let (s, t) = scaled b (value bs) (2 ^ (7 - z)) (2 ^ (8 * length bs)) lo hi (value-lt bs h) in
    let p = pow-add (7 - z) (8 * length bs) in
    (omega arith, unfold value in omega arith, unfold value in omega arith)

TopBit-step : (b : ℕ) (bs : Bytes) (e : ℕ) → b ≡ 0 → TopBit e bs → TopBit e (b ∷ bs)
TopBit-step b bs e z (s, lo, hi) =
    let zeros : leading_zeros (b ∷ bs) ≡ 8 + leading_zeros bs =
      unfold leading_zeros in ground arith in
    let same : value (b ∷ bs) ≡ value bs = unfold value in rw z (omega arith) in
    (omega arith, omega arith, omega arith)

pub top_bit : (bs : Bytes) → All (λ b. b < 256) bs → is_zero bs ≡ false → (e : ℕ) × TopBit e bs
top_bit [] h nz = unfold is_zero in cc
top_bit (b ∷ bs) h nz = elim (Bool-cases (b == 0)) [
  | inl z ↦
      let zero_b : b ≡ 0 = ground arith in
      let (e, t) = top_bit bs h.1 (unfold is_zero in ground arith) in
      (e, TopBit-step b bs e zero_b t)
  | inr z ↦
      let ne : b ≢ 0 = ground arith in
      let (small, lo, hi) = byte_bits b h.0 ne in
      (
        7 - mask_zeros 8 0x80 b + 8 * length bs,
        TopBit-here b bs (mask_zeros 8 0x80 b) refl ne small lo hi h.1,
      )
]

-- The index is within the array of 160 buckets, whatever the identifiers.
pub bucket_index-lt : (local remote : NodeId) → bucket_index local remote < 160
unfolding bucket_index
bucket_index-lt local remote = ground arith

-- For identifiers of 20 bytes whose distance is not zero the bucket is the place of the highest
-- bit in which they differ: their distance, as a number, is at least 2 to the index, and less than
-- twice that.
pub bucket_index_bounds :
    (local remote : NodeId)
    → IsNodeId local
    → IsNodeId remote
    → is_zero (distance local remote) ≡ false
    → (2 ^ bucket_index local remote ≤ value (distance local remote))
      × (value (distance local remote) < 2 * 2 ^ bucket_index local remote)
bucket_index_bounds local remote hl hr nz =
    let d = distance-IsNodeId local remote hl hr in
    let (e, t) = top_bit (distance local remote) d.in_range nz in
    let (s, lo, hi) = t in
    let size = d.size in
    let same : bucket_index local remote ≡ e = unfold bucket_index in ground arith in
    rw same (lo, hi)
