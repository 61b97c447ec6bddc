-- ===== src/Prelude/Int.antt =====
-- Signed integers over the native numbers, under the library's names.
use Prim.Native.Nat.{ℕ, suc, ◌+◌, ◌-◌, ◌%◌, ◌^◌, ◌<◌}
use bt_dht_crawler.Prelude.Tests.{ltb, leb, if◌then◌else◌}

-- `negsuc n` is -(n + 1).
pub data ℤ : Type 0 where
  pos : ℕ → ℤ
  negsuc : ℕ → ℤ

abbrev pub pos_part : ℤ → ℕ
pos_part (pos n) = n
pos_part (negsuc n) = 0

abbrev pub neg_part : ℤ → ℕ
neg_part (pos n) = 0
neg_part (negsuc n) = suc n

-- a - b, as an integer.
abbrev pub sub_ℕ : ℕ → ℕ → ℤ
sub_ℕ a b = if leb b a then pos (a - b) else negsuc (b - a - 1)

-- -n, as an integer.
abbrev pub neg : ℕ → ℤ
neg n = sub_ℕ 0 n

-- The values of Go's `int64`, and of `int` on a 64-bit machine.
abbrev pub IsInt64 : ℤ → Type 0
IsInt64 (pos n) = n < 2 ^ 63
IsInt64 (negsuc n) = n < 2 ^ 63

-- The int64 with the same last 64 bits.
unfoldable pub wrap_int64 : ℤ → ℤ
wrap_int64 (pos n) = let m = n % 2 ^ 64 in if ltb m (2 ^ 63) then pos m else negsuc (2 ^ 64 - m - 1)
wrap_int64 (negsuc n) =
    let m = n % 2 ^ 64 in if ltb m (2 ^ 63) then negsuc m else pos (2 ^ 64 - 1 - m)

-- `a + b` of two int64.
unfoldable pub add_int64 : ℤ → ℤ → ℤ
unfolding wrap_int64
add_int64 a b = wrap_int64 (sub_ℕ (pos_part a + pos_part b) (neg_part a + neg_part b))
