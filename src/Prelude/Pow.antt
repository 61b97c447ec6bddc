-- ===== src/Prelude/Pow.antt =====
-- Powers of two, and checks of a small range by evaluation.
use Prim.Native.Nat.{ℕ, zero, suc, ◌+◌, ◌*◌, ◌^◌, ◌<◌}
use mathlib.Core.Path.{◌≡◌, ap}
use mathlib.Core.Bool.{Bool, true, ◌&&◌}
use native.Mathlib.Omega.{arith}
use native.Mathlib.Nat.{pow-suc}

-- Whether a test holds of each number below a bound.
unfoldable pub passes_below : (ℕ → Bool) → ℕ → Bool
passes_below test zero = true
passes_below test (suc bound) = passes_below test bound && test bound

pub passes_below-passes :
    (test : ℕ → Bool) (bound i : ℕ) → passes_below test bound ≡ true → i < bound → test i ≡ true
unfolding passes_below
passes_below-passes test (suc bound) i whole h = ground (arith, passes_below-passes test bound i)
passes_below-passes test zero i whole h = absurd (omega arith)

pub pow-add : (a b : ℕ) → 2 ^ (a + b) ≡ 2 ^ a * 2 ^ b
pow-add zero b =
    let e : zero + b ≡ b = omega arith in let f : 2 ^ 0 * 2 ^ b ≡ 2 ^ b = omega arith in rw (e, f)
pow-add (suc a) b =
    let e : suc a + b ≡ suc (a + b) = omega arith in
    rw e (
      omega (
        arith,
        pow-suc 2 (a + b),
        pow-suc 2 a,
        pow-add a b,
        ap (λ (t : ℕ). t * 2 ^ b) (pow-suc 2 a),
      ))
