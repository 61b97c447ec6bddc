-- ===== src/Prelude/Basic.antt =====
-- Bytes, texts as lists of bytes, and predicates over lists.
use Prim.Native.Nat.{ℕ, ◌+◌, ◌<◌}
use Prim.Native.Char.{code}
use Prim.Native.String.{String}
use mathlib.Core.Path.{◌≡◌, refl, sym, ap}
use mathlib.Core.Bool.{Bool, true, false, ◌&&◌}
use mathlib.Core.List.{List, [], ◌∷◌, ◌++◌}
use native.Mathlib.Omega.{arith}
use bt_dht_crawler.Prelude.Tests.{◌==◌, if◌then◌else◌}
use bt_dht_crawler.Prelude.Lists.{length, take, drop}

abbrev pub Bytes : Type 0
Bytes = List ℕ

-- The code points of a literal, which are its bytes if it is ASCII.
abbrev pub codes : String → Bytes
codes String.[] = []
codes (String.◌∷◌ c s) = code c ∷ codes s

-- Equality of strings and of byte slices.
abbrev pub bytes_eq : Bytes → Bytes → Bool
bytes_eq [] [] = true
bytes_eq [] (y ∷ ys) = false
bytes_eq (x ∷ xs) [] = false
bytes_eq (x ∷ xs) (y ∷ ys) = (x == y) && bytes_eq xs ys

pub bytes_eq→eq : (a b : Bytes) → bytes_eq a b ≡ true → a ≡ b
bytes_eq→eq [] [] h = refl
bytes_eq→eq [] (y ∷ ys) h = cc
bytes_eq→eq (x ∷ xs) [] h = cc
bytes_eq→eq (x ∷ xs) (y ∷ ys) h = ground (arith, bytes_eq→eq xs ys)

pub bytes_eq_refl : (a : Bytes) → bytes_eq a a ≡ true
bytes_eq_refl [] = refl
bytes_eq_refl (x ∷ xs) = ground (arith, bytes_eq_refl xs)

pub eq→bytes_eq : (a b : Bytes) → a ≡ b → bytes_eq a b ≡ true
eq→bytes_eq a b e = rw e (bytes_eq_refl b)

pub bytes_eq-same : (k g h : Bytes) → bytes_eq g h ≡ true → bytes_eq k h ≡ bytes_eq k g
bytes_eq-same k g h e = ap (bytes_eq k) (sym (bytes_eq→eq g h e))

-- How often a text stands in a list.
abbrev pub times : Bytes → List Bytes → ℕ
times k [] = 0
times k (h ∷ hs) = (if bytes_eq k h then 1 else 0) + times k hs

module _ {ℓ κ} {A : Type ℓ} (P : A → Type κ) where
  abbrev pub All : List A → Type κ
  All [] = Unit
  All (x ∷ xs) = P x × All xs

  pub All-append : (xs ys : List A) → All xs → All ys → All (xs ++ ys)
  All-append [] ys _ hy = hy
  All-append (x ∷ xs) ys (px, hx) hy = (px, All-append xs ys hx hy)

-- A byte is a number below 256.
abbrev pub IsBytes : Bytes → Type 0
IsBytes = All (λ b. b < 256)

module _ {ℓ} {A : Type ℓ} where
  pub take-append : (xs ys : List A) → take (length xs) (xs ++ ys) ≡ xs
  take-append [] ys = refl
  take-append (x ∷ xs) ys = ap (◌∷◌ x) (take-append xs ys)

  pub drop-append : (xs ys : List A) → drop (length xs) (xs ++ ys) ≡ ys
  drop-append [] ys = refl
  drop-append (x ∷ xs) ys = drop-append xs ys

module _ {ℓ κ} {A : Type ℓ} (R : A → A → Type κ) where
  -- `R` holds of every element and each one behind it.
  abbrev pub Pairwise : List A → Type κ
  Pairwise [] = Unit
  Pairwise (x ∷ xs) = All (R x) xs × Pairwise xs

  pub Pairwise-middle :
      (xs : List A) (y : A) (ys : List A) → Pairwise (xs ++ (y ∷ ys)) → All (λ x. R x y) xs
  Pairwise-middle [] y ys h = tt
  Pairwise-middle (x ∷ xs) y ys h = (at_middle xs h.0, Pairwise-middle xs y ys h.1)
    where
      at_middle : (zs : List A) → All (R x) (zs ++ (y ∷ ys)) → R x y
      at_middle [] a = a.0
      at_middle (z ∷ zs) a = at_middle zs a.1
