-- ===== src/Dht/Id/Generate/Spread.antt =====
-- Each generated identifier lies in its own piece of the key space.
use bt_dht_crawler.Prelude.{
  ℕ, zero, suc, ◌+◌, ◌*◌, ◌^◌, ◌≤◌, ◌<◌, ◌≡◌, refl, ap, ◌/◌, ◌%◌, List, [], ◌∷◌, ◌++◌, Bytes,
  length, length-append, All, All-append, Outcome, ok, arith,
}
use native.Mathlib.Nat.{mul-div-le, le-div_iff_mul-le}
use bt_dht_crawler.Prelude.Int.{pos}
use bt_dht_crawler.Prelude.Pow.{pow-add}
use bt_dht_crawler.Dht.Id.{NodeId, IsNodeId, id_length}
use bt_dht_crawler.Dht.Id.Bucket.{value}
use bt_dht_crawler.Dht.Id.Generate.{fill_bytes, generate_loop, generate_distributed_ids}

-- The identifiers are one in each piece, from piece `i` on.
abbrev pub Spaced : ℕ → ℕ → List NodeId → Type 0
Spaced piece i [] = Unit {0}
Spaced piece i (id ∷ ids) =
    IsNodeId id × (piece * i ≤ value id) × (value id < piece * i + piece) × Spaced piece (suc i) ids

-- What `crypto/rand` documents of `Int`, where its source does not fail: a number below the bound.
abbrev pub IsRandom : (ℕ → ℕ → Outcome ℕ) → Type 0
IsRandom random = (i piece : ℕ) → 0 < piece → (r : ℕ) × (random i piece ≡ ok r) × (r < piece)

length-fill_bytes : (k n : ℕ) → length (fill_bytes k n) ≡ k
unfolding fill_bytes
length-fill_bytes zero n = refl
length-fill_bytes (suc k) n =
    omega
      (arith, length-append (fill_bytes k (n / 256)) (n % 256 ∷ []), length-fill_bytes k (n / 256))

fill_bytes-All : (k n : ℕ) → All (λ b. b < 256) (fill_bytes k n)
unfolding fill_bytes
fill_bytes-All zero n = tt
fill_bytes-All (suc k) n =
    All-append (λ b. b < 256) (fill_bytes k (n / 256)) (n % 256 ∷ []) (fill_bytes-All k (n / 256))
      (omega arith, tt)

value-append : (bs : Bytes) (c : ℕ) → value (bs ++ (c ∷ [])) ≡ value bs * 256 + c
unfolding value
value-append [] c = omega arith
value-append (b ∷ bs) c =
    let w : 8 * length (bs ++ (c ∷ [])) ≡ 8 + 8 * length bs =
      omega (arith, length-append bs (c ∷ [])) in
    let p : b * (2 ^ 8 * 2 ^ (8 * length bs)) ≡ b * 2 ^ (8 * length bs) * 256 = grind arith in
    rw (w, pow-add 8 (8 * length bs)) (omega (arith, p, value-append bs c))

value-fill_bytes : (k n : ℕ) → n < 2 ^ (8 * k) → value (fill_bytes k n) ≡ n
unfolding fill_bytes value
value-fill_bytes zero n h = omega arith
value-fill_bytes (suc k) n h =
    let w : 8 * suc k ≡ 8 + 8 * k = omega arith in
    let top : n < 2 ^ 8 * 2 ^ (8 * k) = rw (w, pow-add 8 (8 * k)) at h in
    let rest = value-fill_bytes k (n / 256) (omega arith) in
    omega (arith, rest, value-append (fill_bytes k (n / 256)) (n % 256))

fill_bytes-IsNodeId : (n : ℕ) → IsNodeId (fill_bytes id_length n)
fill_bytes-IsNodeId n = record { size = length-fill_bytes 20 n; in_range = fill_bytes-All 20 n }

generate_loop-Spaced :
    (random : ℕ → ℕ → Outcome ℕ) (n i piece : ℕ)
    → IsRandom random
    → 0 < piece
    → piece * i + piece * n ≤ 2 ^ 160
    → (ids : List NodeId) × (generate_loop random n i piece ≡ ok ids)
      × (length ids ≡ n)
      × Spaced piece i ids
unfolding generate_loop
generate_loop-Spaced random zero i piece h some_room fits = ([], refl, refl, tt)
generate_loop-Spaced random (suc n) i piece h some_room fits =
    let (r, er, lt) = h i piece some_room in
    let ahead : piece * suc i + piece * n ≤ 2 ^ 160 = omega arith in
    let inside : piece * i + r < 2 ^ 160 = omega arith in
    let (more, em, l, s) = generate_loop-Spaced random n (suc i) piece h some_room ahead in
    let v : value (fill_bytes 20 (piece * i + r)) ≡ piece * i + r =
      value-fill_bytes 20 (piece * i + r) inside in
    (
      fill_bytes id_length (piece * i + r) ∷ more,
      rw (er, em) refl,
      ap suc l,
      (fill_bytes-IsNodeId (piece * i + r), omega (arith, v), omega (arith, v), s),
    )

-- If the source of randomness keeps to its bound and does not fail, then for a count from 1 to 2^160
-- there are that many identifiers, and the one at place `i` lies in the piece that begins at `i` times
-- 2^160 / count.
pub generate_distributed_ids-Spaced :
    (random : ℕ → ℕ → Outcome ℕ) (n : ℕ)
    → IsRandom random
    → suc n ≤ 2 ^ 160
    → (ids : List NodeId) × (generate_distributed_ids random (pos (suc n)) ≡ ok ids)
      × (length ids ≡ suc n)
      × Spaced (2 ^ 160 / suc n) 0 ids
unfolding generate_distributed_ids
generate_distributed_ids-Spaced random n h few =
    let whole : suc n * (2 ^ 160 / suc n) ≤ 2 ^ 160 = mul-div-le (2 ^ 160) (suc n) in
    let some_room : 1 ≤ 2 ^ 160 / suc n =
      (le-div_iff_mul-le {k = suc n} {x = 1} {y = 2 ^ 160} (omega arith)).1 (omega arith) in
    generate_loop-Spaced random (suc n) 0 (2 ^ 160 / suc n) h some_room (omega arith)
