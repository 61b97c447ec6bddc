-- ===== src/Bt/Metadata/Pieces/Copy.antt =====
-- Copying one piece into the metadata.
use bt_dht_crawler.Prelude.{
  ℕ, zero, suc, ◌+◌, ◌-◌, ◌*◌, ◌≤◌, ◌<◌, ◌≡◌, ◌≢◌, refl, sym, ap, ◌∙◌, Bool, true, false, ◌/◌, [],
  ◌∷◌, min, Bytes, length, take, drop, get_elem?, length-take, length-drop, ltb, ltb→lt, not_ltb→le,
  if◌then◌else◌, Bool-cases, inl, inr, arith, Option,
}
use bt_dht_crawler.Prelude.Elements.{get_elem?-take, get_elem?-drop}
use bt_dht_crawler.Bt.Metadata.Pieces.{piece_size, copy_over, copy_at}

-- Piece `i` of the metadata.
abbrev pub slice : ℕ → Bytes → Bytes
slice i info = take piece_size (drop (i * piece_size) info)

pub length-copy_over : (bs old : Bytes) → length (copy_over bs old) ≡ length old
unfolding copy_over
length-copy_over [] old = refl
length-copy_over (b ∷ bs) [] = refl
length-copy_over (b ∷ bs) (o ∷ old) = ap suc (length-copy_over bs old)

get_elem?-copy_over :
    (bs old : Bytes) (j : ℕ)
    → j < length old
    → get_elem? (copy_over bs old) j
      ≡ (if ltb j (length bs) then get_elem? bs j else get_elem? old j)
unfolding copy_over
get_elem?-copy_over [] old j h = ground arith
get_elem?-copy_over (b ∷ bs) [] j h = absurd (omega arith)
get_elem?-copy_over (b ∷ bs) (o ∷ old) zero h = ground arith
get_elem?-copy_over (b ∷ bs) (o ∷ old) (suc j) h =
    ground (arith, get_elem?-copy_over bs old j (omega arith))

pub length-copy_at : (i : ℕ) (bs old : Bytes) → length (copy_at i bs old) ≡ length old
unfolding copy_at
length-copy_at zero bs old = length-copy_over bs old
length-copy_at (suc i) bs [] = length-copy_over bs []
length-copy_at (suc i) bs (o ∷ old) = ap suc (length-copy_at i bs old)

get_elem?-copy_at_before :
    (i : ℕ) (bs old : Bytes) (j : ℕ) → j < i → get_elem? (copy_at i bs old) j ≡ get_elem? old j
unfolding copy_at copy_over
get_elem?-copy_at_before zero bs old j h = absurd (omega arith)
get_elem?-copy_at_before (suc i) [] [] j h = refl
get_elem?-copy_at_before (suc i) (b ∷ bs) [] j h = refl
get_elem?-copy_at_before (suc i) bs (o ∷ old) zero h = refl
get_elem?-copy_at_before (suc i) bs (o ∷ old) (suc j) h =
    get_elem?-copy_at_before i bs old j (omega arith)

get_elem?-copy_at :
    (i : ℕ) (bs old : Bytes) (j : ℕ)
    → i + j < length old
    → get_elem? (copy_at i bs old) (i + j)
      ≡ (if ltb j (length bs) then get_elem? bs j else get_elem? old (i + j))
unfolding copy_at
get_elem?-copy_at zero bs old j h = rw (zero_add j) (get_elem?-copy_over bs old j (omega arith))
  where
    zero_add : (j : ℕ) → 0 + j ≡ j
    zero_add j = omega arith
get_elem?-copy_at (suc i) bs [] j h = absurd (omega arith)
get_elem?-copy_at (suc i) bs (o ∷ old) j h =
    rw (suc_add i j) (get_elem?-copy_at i bs old j (omega arith))
  where
    suc_add : (i j : ℕ) → suc i + j ≡ suc (i + j)
    suc_add i j = omega arith

get_elem?-slice :
    (i j : ℕ) (info : Bytes)
    → j < piece_size
    → get_elem? (slice i info) j ≡ get_elem? info (i * piece_size + j)
get_elem?-slice i j info h =
    get_elem?-take piece_size j (drop (i * piece_size) info) h
    ∙ get_elem?-drop (i * piece_size) j (i * piece_size + j) info refl

pub length-slice :
    (i : ℕ) (info : Bytes) → length (slice i info) ≡ min piece_size (length info - i * piece_size)
length-slice i info =
    length-take piece_size (drop (i * piece_size) info)
    ∙ ap (min piece_size) (length-drop (i * piece_size) info)

-- Inside piece `i` the copied bytes are those of `info`, and elsewhere nothing changes.
pub copy_slice :
    (i j : ℕ) (info old : Bytes)
    → length old ≡ length info
    → j < length info
    → (j / piece_size ≢ i → get_elem? old j ≡ get_elem? info j)
    → get_elem? (copy_at (i * piece_size) (slice i info) old) j ≡ get_elem? info j
copy_slice i j info old sized lt elsewhere = elim (Bool-cases (ltb j (i * piece_size))) [
  | inl e ↦
      let before : j < i * piece_size = ltb→lt j (i * piece_size) e in
      get_elem?-copy_at_before (i * piece_size) (slice i info) old j before
      ∙ elsewhere (λ q. absurd (omega arith))
  | inr e ↦
      let after : i * piece_size ≤ j = not_ltb→le j (i * piece_size) e in
      let k : ℕ = j - i * piece_size in
      let at : j ≡ i * piece_size + k = omega arith in
      elim (Bool-cases (ltb k (length (slice i info)))) [
        | inl d ↦
            let small : k < length (slice i info) = ltb→lt k (length (slice i info)) d in
            rw at (
              get_elem?-copy_at (i * piece_size) (slice i info) old k (omega arith)
              ∙ taken _ _ _ d
              ∙ get_elem?-slice i k info (omega (arith, length-slice i info)))
        | inr d ↦
            let big : length (slice i info) ≤ k = not_ltb→le k (length (slice i info)) d in
            rw at (
              get_elem?-copy_at (i * piece_size) (slice i info) old k (omega arith)
              ∙ left _ _ _ d
              ∙ ap (get_elem? old) (sym at)
              ∙ elsewhere (λ q. absurd (omega (arith, length-slice i info)))
              ∙ ap (get_elem? info) at)
      ]
]
  where
    taken : (b : Bool) (x y : Option ℕ) → b ≡ true → (if b then x else y) ≡ x
    taken b x y d = rw d

    left : (b : Bool) (x y : Option ℕ) → b ≡ false → (if b then x else y) ≡ y
    left b x y d = rw d
