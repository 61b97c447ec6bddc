-- ===== src/Prelude/Bits.antt =====
-- `bit_xor` at variables, from the recursion on binary digits that it stands for.
use Prim.Native.Nat.{
  ℕ, zero, suc, ◌+◌, ◌-◌, ◌*◌, ◌/◌, ◌%◌, ◌≤◌, ◌<◌, ◌^◌, bit_xor, digits, bit_xor-bitwise, differ,
}
use mathlib.Core.Path.{◌≡◌, refl}
use native.Mathlib.Omega.{arith}
use native.Mathlib.Nat.{le_refl, pow-suc}

abbrev xor_digits : ℕ → ℕ → ℕ → ℕ
xor_digits n a b = digits (λ b. b) differ n a b

-- Fuel that covers the left number is as good as any other that does.
xor_digits-same : (b : ℕ) {a n : ℕ} → a ≤ n → (m : ℕ) → a ≤ m → xor_digits m a b ≡ xor_digits n a b
xor_digits-same b {a = suc a} {n = suc n} p (suc m) q =
    let halves : suc a / 2 ≤ m = omega arith in
    rw (xor_digits-same (b / 2) {a = suc a / 2} {n = n} (omega arith) m halves)
xor_digits-same b {a = suc a} {n = zero} p m q = absurd (omega arith)
xor_digits-same b {a = suc a} {n = suc n} p zero q = absurd (omega arith)
xor_digits-same b {a = zero} {n = suc n} p (suc m) q = refl
xor_digits-same b {a = zero} {n = zero} p (suc m) q = refl
xor_digits-same b {a = zero} {n = suc n} p zero q = refl
xor_digits-same b {a = zero} {n = zero} p zero q = refl

pub bit_xor-suc :
    (a b : ℕ) → bit_xor (suc a) b ≡ bit_xor (suc a / 2) (b / 2) * 2 + differ (suc a % 2) (b % 2)
bit_xor-suc a b = omega (
  arith,
  bit_xor-bitwise (suc a) b,
  bit_xor-bitwise (suc a / 2) (b / 2),
  xor_digits-same (b / 2) (le_refl (suc a / 2)) a (omega arith),
)

pub zero-bit_xor : (b : ℕ) → bit_xor 0 b ≡ b
zero-bit_xor b = bit_xor-bitwise 0 b

differ-sub : (x y : ℕ) → differ x y ≡ (x - y) + (y - x)
differ-sub zero y = omega arith
differ-sub (suc x) zero = omega arith
differ-sub (suc x) (suc y) = omega (arith, differ-sub x y)

-- The lowest digit of an exclusive or.
pub bit_xor_step :
    (a b : ℕ) → bit_xor a b ≡ bit_xor (a / 2) (b / 2) * 2 + ((a % 2 - b % 2) + (b % 2 - a % 2))
bit_xor_step zero b = omega (arith, zero-bit_xor b, zero-bit_xor (b / 2))
bit_xor_step (suc a) b = omega (arith, bit_xor-suc a b, differ-sub (suc a % 2) (b % 2))

bit_xor-self_fuel : (n a : ℕ) → a ≤ n → bit_xor a a ≡ 0
bit_xor-self_fuel n zero h = zero-bit_xor 0
bit_xor-self_fuel zero (suc a) h = absurd (omega arith)
bit_xor-self_fuel (suc n) (suc a) h =
    omega (arith, bit_xor_step (suc a) (suc a), bit_xor-self_fuel n (suc a / 2) (omega arith))

pub bit_xor_self : (a : ℕ) → bit_xor a a ≡ 0
bit_xor_self a = bit_xor-self_fuel a a (omega arith)

bit_xor_comm_fuel : (n a b : ℕ) → a ≤ n → b ≤ n → bit_xor a b ≡ bit_xor b a
bit_xor_comm_fuel zero a b h k =
    let p : a ≡ 0 = omega arith in let q : b ≡ 0 = omega arith in rw (p, q)
bit_xor_comm_fuel (suc n) a b h k = omega (
  arith,
  bit_xor_step a b,
  bit_xor_step b a,
  bit_xor_comm_fuel n (a / 2) (b / 2) (omega arith) (omega arith),
)

pub bit_xor_comm : (a b : ℕ) → bit_xor a b ≡ bit_xor b a
bit_xor_comm a b = bit_xor_comm_fuel (a + b) a b (omega arith) (omega arith)

bit_xor_cancel_fuel : (n a b c : ℕ) → b ≤ n → c ≤ n → bit_xor a b ≡ bit_xor a c → b ≡ c
bit_xor_cancel_fuel zero a b c h k e = omega arith
bit_xor_cancel_fuel (suc n) a b c h k e =
    let s = bit_xor_step a b in
    let t = bit_xor_step a c in
    let halves =
      bit_xor_cancel_fuel n (a / 2) (b / 2) (c / 2) (omega arith) (omega arith) (omega arith) in
    omega arith

-- For each `a` and each distance there is one `b` at most.
pub bit_xor_cancel : (a b c : ℕ) → bit_xor a b ≡ bit_xor a c → b ≡ c
bit_xor_cancel a b c = bit_xor_cancel_fuel (b + c) a b c (omega arith) (omega arith)

-- Eight binary digits stay eight binary digits.
pub bit_xor-lt : (k : ℕ) (a b : ℕ) → a < 2 ^ k → b < 2 ^ k → bit_xor a b < 2 ^ k
bit_xor-lt zero a b h l =
    let p : a ≡ 0 = omega arith in let q : b ≡ 0 = omega arith in rw (p, q) (omega arith)
bit_xor-lt (suc k) a b h l = omega (
  arith,
  bit_xor_step a b,
  pow-suc 2 k,
  bit_xor-lt k (a / 2) (b / 2) (omega (arith, pow-suc 2 k)) (omega (arith, pow-suc 2 k)),
)
