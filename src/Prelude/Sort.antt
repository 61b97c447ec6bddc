-- ===== src/Prelude/Sort.antt =====
-- Insertion sort by a Boolean "less", as Go's sort functions take it.
use Prim.Native.Nat.{suc}
use mathlib.Core.Path.{◌≡◌, refl, ap}
use mathlib.Core.Logic.{inl, inr}
use mathlib.Core.Bool.{Bool, true, false}
use mathlib.Core.List.{List, [], ◌∷◌, Perm, map}
use mathlib.Core.List.Perm
use native.Mathlib.Omega.{arith}
use bt_dht_crawler.Prelude.Tests.{if◌then◌else◌, Bool-cases}
use bt_dht_crawler.Prelude.Lists.{length}
use bt_dht_crawler.Prelude.Basic.{All, Pairwise}

module _ {ℓ} {A : Type ℓ} (less : A → A → Bool) where
  unfoldable pub insert_by : A → List A → List A
  insert_by x [] = x ∷ []
  insert_by x (y ∷ ys) = if less y x then y ∷ insert_by x ys else x ∷ y ∷ ys

  unfoldable pub sort_by : List A → List A
  unfolding insert_by
  sort_by [] = []
  sort_by (x ∷ xs) = insert_by x (sort_by xs)

  -- No later element is less than an earlier one.
  abbrev pub IsSorted : List A → Type 0
  IsSorted [] = Unit {0}
  IsSorted (x ∷ xs) = All (λ y. less y x ≡ false) xs × IsSorted xs

  pub insert_by-perm : (x : A) (xs : List A) → Perm (insert_by x xs) (x ∷ xs)
  unfolding insert_by
  insert_by-perm x [] = Perm.refl _
  insert_by-perm x (y ∷ ys) = elim (Bool-cases (less y x)) [
    | inl e ↦ rw e (Perm.trans (Perm.cons y (insert_by-perm x ys)) (Perm.swap x y ys))
    | inr e ↦ rw e (Perm.refl _)
  ]

  pub sort_by-perm : (xs : List A) → Perm (sort_by xs) xs
  unfolding sort_by
  sort_by-perm [] = Perm.refl _
  sort_by-perm (x ∷ xs) = Perm.trans (insert_by-perm x (sort_by xs)) (Perm.cons x (sort_by-perm xs))

  module _ {κ} (P : A → Type κ) where
    pub insert_by-All : (x : A) (xs : List A) → P x → All P xs → All P (insert_by x xs)
    unfolding insert_by
    insert_by-All x [] p ps = (p, tt)
    insert_by-All x (y ∷ ys) p ps = elim (Bool-cases (less y x)) [
      | inl e ↦ rw e (ps.0, insert_by-All x ys p ps.1)
      | inr e ↦ rw e (p, ps)
    ]

    pub sort_by-All : (xs : List A) → All P xs → All P (sort_by xs)
    unfolding sort_by
    sort_by-All [] ps = tt
    sort_by-All (x ∷ xs) ps = insert_by-All x (sort_by xs) ps.0 (sort_by-All xs ps.1)

  pub length-insert_by : (x : A) (xs : List A) → length (insert_by x xs) ≡ suc (length xs)
  unfolding insert_by
  length-insert_by x [] = refl
  length-insert_by x (y ∷ ys) = elim (Bool-cases (less y x)) [
    | inl e ↦ rw e (ap suc (length-insert_by x ys))
    | inr e ↦ rw e
  ]

  pub length-sort_by : (xs : List A) → length (sort_by xs) ≡ length xs
  unfolding sort_by
  length-sort_by [] = refl
  length-sort_by (x ∷ xs) = omega (arith, length-insert_by x (sort_by xs), length-sort_by xs)

-- What Go asks of a "less": a strict weak order.
pub record IsWeakOrder {ℓ} {A : Type ℓ} (less : A → A → Bool) : Type ℓ where
  pub asymm : (a b : A) → less a b ≡ true → less b a ≡ false
  pub weak_trans : (a b c : A) → less b a ≡ false → less c b ≡ false → less c a ≡ false

module _ {ℓ} {A : Type ℓ} (less : A → A → Bool) (o : IsWeakOrder less) where
  le-All :
      (x y : A) (ys : List A)
      → less y x ≡ false
      → All (λ z. less z y ≡ false) ys
      → All (λ z. less z x ≡ false) ys
  le-All x y [] h ps = tt
  le-All x y (z ∷ zs) h ps = (o.weak_trans x y z h ps.0, le-All x y zs h ps.1)

  pub insert_by-IsSorted :
      (x : A) (xs : List A) → IsSorted less xs → IsSorted less (insert_by less x xs)
  unfolding insert_by
  insert_by-IsSorted x [] s = (tt, tt)
  insert_by-IsSorted x (y ∷ ys) s = elim (Bool-cases (less y x)) [
    | inl e ↦ rw e (
      insert_by-All less (λ z. less z y ≡ false) x ys (o.asymm y x e) s.0,
      insert_by-IsSorted x ys s.1,
    )
    | inr e ↦ rw e ((e, le-All x y ys e s.0), s)
  ]

  pub sort_by-IsSorted : (xs : List A) → IsSorted less (sort_by less xs)
  unfolding sort_by
  sort_by-IsSorted [] = tt
  sort_by-IsSorted (x ∷ xs) = insert_by-IsSorted x (sort_by less xs) (sort_by-IsSorted xs)

module _ {ℓ κ} {A : Type ℓ} (less : A → A → Bool) (R : A → A → Type κ)
    (sym_R : (a b : A) → R a b → R b a) where
  insert_by-Pairwise :
      (x : A) (xs : List A) → All (R x) xs → Pairwise R xs → Pairwise R (insert_by less x xs)
  unfolding insert_by
  insert_by-Pairwise x [] a p = (tt, tt)
  insert_by-Pairwise x (y ∷ ys) a p = elim (Bool-cases (less y x)) [
    | inl e ↦
        rw e (insert_by-All less (R y) x ys (sym_R x y a.0) p.0, insert_by-Pairwise x ys a.1 p.1)
    | inr e ↦ rw e (a, p)
  ]

  -- A symmetric relation between all elements survives sorting.
  pub sort_by-Pairwise : (xs : List A) → Pairwise R xs → Pairwise R (sort_by less xs)
  unfolding sort_by
  sort_by-Pairwise [] p = tt
  sort_by-Pairwise (x ∷ xs) p =
      insert_by-Pairwise x (sort_by less xs) (sort_by-All less (R x) xs p.0)
        (sort_by-Pairwise xs p.1)

module _ {A B : Type 0} (f : A → B) (less : A → A → Bool) (less' : B → B → Bool)
    (same : (a b : A) → less' (f a) (f b) ≡ less a b) where
  map-insert_by :
      (x : A) (xs : List A) → insert_by less' (f x) (map f xs) ≡ map f (insert_by less x xs)
  unfolding insert_by
  map-insert_by x [] = refl
  map-insert_by x (y ∷ ys) = elim (Bool-cases (less y x)) [
    | inl e ↦ rw (same y x, e) (ap (◌∷◌ (f y)) (map-insert_by x ys))
    | inr e ↦ rw (same y x, e)
  ]

  -- Sorting by a key of the image is sorting by the key.
  pub map-sort_by : (xs : List A) → sort_by less' (map f xs) ≡ map f (sort_by less xs)
  unfolding sort_by
  map-sort_by [] = refl
  map-sort_by (x ∷ xs) = rw (map-sort_by xs) (map-insert_by x (sort_by less xs))
