-- ===== src/Prelude/Elements.antt =====
-- Lists by their elements.
use Prim.Native.Nat.{ℕ, zero, suc, ◌+◌, ◌≤◌, ◌<◌}
use mathlib.Core.Path.{◌≡◌, refl, ap, ap₂}
use mathlib.Core.Logic.{◌≢◌}
use mathlib.Core.Bool.{Bool, true, false}
use mathlib.Core.Option.{some}
use mathlib.Core.List.{List, [], ◌∷◌}
use native.Mathlib.Omega.{arith}
use bt_dht_crawler.Prelude.Tests.{if◌then◌else◌}
use mathlib.Core.Logic.{◌⊎◌, inl, inr}
use bt_dht_crawler.Prelude.Basic.{All}
use bt_dht_crawler.Prelude.Lists.{length, get_elem?, get_or, set, take, drop}

module _ {ℓ} {A : Type ℓ} where
  some_injective : {a b : A} → some a ≡ some b → a ≡ b
  some_injective e = cc

  -- Two lists of one length with the same elements are the same.
  pub get_elem?-ext :
      (xs ys : List A)
      → length xs ≡ length ys
      → ((j : ℕ) → j < length xs → get_elem? xs j ≡ get_elem? ys j)
      → xs ≡ ys
  get_elem?-ext [] [] l h = refl
  get_elem?-ext [] (y ∷ ys) l h = absurd (omega arith)
  get_elem?-ext (x ∷ xs) [] l h = absurd (omega arith)
  get_elem?-ext (x ∷ xs) (y ∷ ys) l h =
      ap₂ ◌∷◌ (some_injective (h 0 (omega arith)))
        (get_elem?-ext xs ys (omega arith) (λ j lt. h (suc j) (omega arith)))

  pub get_elem?-take : (n j : ℕ) (xs : List A) → j < n → get_elem? (take n xs) j ≡ get_elem? xs j
  get_elem?-take zero j xs h = absurd (omega arith)
  get_elem?-take (suc n) j [] h = refl
  get_elem?-take (suc n) zero (x ∷ xs) h = refl
  get_elem?-take (suc n) (suc j) (x ∷ xs) h = get_elem?-take n j xs (omega arith)

  pub get_elem?-drop :
      (n j k : ℕ) (xs : List A) → k ≡ n + j → get_elem? (drop n xs) j ≡ get_elem? xs k
  get_elem?-drop zero j k xs e = ap (get_elem? xs) (omega arith)
  get_elem?-drop (suc n) j k [] e = refl
  get_elem?-drop (suc n) j zero (x ∷ xs) e = absurd (omega arith)
  get_elem?-drop (suc n) j (suc k) (x ∷ xs) e = get_elem?-drop n j k xs (omega arith)

  pub get_or-set_self :
      (xs : List A) (i : ℕ) (v d : A) → i < length xs → get_or (set xs i v) i d ≡ v
  get_or-set_self [] i v d h = absurd (omega arith)
  get_or-set_self (x ∷ xs) zero v d h = refl
  get_or-set_self (x ∷ xs) (suc i) v d h = get_or-set_self xs i v d (omega arith)

  pub get_or-set_ne :
      (xs : List A) (i j : ℕ) (v d : A) → i ≢ j → get_or (set xs i v) j d ≡ get_or xs j d
  get_or-set_ne [] i j v d h = refl
  get_or-set_ne (x ∷ xs) zero zero v d h = absurd (h refl)
  get_or-set_ne (x ∷ xs) zero (suc j) v d h = refl
  get_or-set_ne (x ∷ xs) (suc i) zero v d h = refl
  get_or-set_ne (x ∷ xs) (suc i) (suc j) v d h = get_or-set_ne xs i j v d (λ e. h (ap suc e))

  pub get_or-in_range :
      (xs : List A) (i : ℕ) (d e : A) → i < length xs → get_or xs i d ≡ get_or xs i e
  get_or-in_range [] i d e h = absurd (omega arith)
  get_or-in_range (x ∷ xs) zero d e h = refl
  get_or-in_range (x ∷ xs) (suc i) d e h = get_or-in_range xs i d e (omega arith)

-- How many entries are true.
abbrev pub count_true : List Bool → ℕ
count_true [] = 0
count_true (b ∷ bs) = (if b then 1 else 0) + count_true bs

pub count_true-le : (bs : List Bool) → count_true bs ≤ length bs
count_true-le [] = omega arith
count_true-le (true ∷ bs) = omega (arith, count_true-le bs)
count_true-le (false ∷ bs) = omega (arith, count_true-le bs)

pub count_true-set :
    (bs : List Bool) (i : ℕ)
    → get_or bs i true ≡ false
    → count_true (set bs i true) ≡ count_true bs + 1
count_true-set [] i h = cc
count_true-set (true ∷ bs) zero h = cc
count_true-set (false ∷ bs) zero h = omega arith
count_true-set (b ∷ bs) (suc i) h = omega (arith, count_true-set bs i h)

-- If as many are true as there are, each is, and the other way round.
pub count_true-full :
    (bs : List Bool) (i : ℕ) → length bs ≤ count_true bs → i < length bs → get_or bs i false ≡ true
count_true-full [] i h l = absurd (omega arith)
count_true-full (true ∷ bs) zero h l = refl
count_true-full (true ∷ bs) (suc i) h l = count_true-full bs i (omega arith) (omega arith)
count_true-full (false ∷ bs) i h l = absurd (omega (arith, count_true-le bs))

pub count_true-each :
    (bs : List Bool)
    → ((i : ℕ) → i < length bs → get_or bs i false ≡ true)
    → count_true bs ≡ length bs
count_true-each [] h = refl
count_true-each (true ∷ bs) h = omega (arith, count_true-each bs (λ i l. h (suc i) (omega arith)))
count_true-each (false ∷ bs) h = let e = h 0 (omega arith) in cc

module _ {A : Type 0} where
  -- The value is an element of the list.
  abbrev pub IsIn : A → List A → Type 0
  IsIn x [] = ⊥
  IsIn x (y ∷ ys) = (x ≡ y) ⊎ IsIn x ys

  pub All-mono : (P Q : A → Type 0) (xs : List A) → ((x : A) → P x → Q x) → All P xs → All Q xs
  All-mono P Q [] f h = tt
  All-mono P Q (x ∷ xs) f h = (f x h.0, All-mono P Q xs f h.1)

  pub All-IsIn : (xs : List A) → All (λ x. IsIn x xs) xs
  All-IsIn [] = tt
  All-IsIn (x ∷ xs) =
      (inl refl, All-mono (λ y. IsIn y xs) (λ y. IsIn y (x ∷ xs)) xs (λ y m. inr m) (All-IsIn xs))

  pub List-cases : (xs : List A) → (xs ≡ []) ⊎ ((y : A) × (ys : List A) × (xs ≡ y ∷ ys))
  List-cases [] = inl refl
  List-cases (x ∷ xs) = inr (x, xs, refl)
