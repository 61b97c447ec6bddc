-- ===== src/Bt/Metadata/Pieces/Store.antt =====
-- What the pieces received so far say about the metadata.
use bt_dht_crawler.Prelude.{
  ℕ, zero, suc, ◌*◌, ◌≤◌, ◌<◌, ◌≡◌, refl, sym, ap, ◌∙◌, true, false, ◌/◌, Bytes, length, get_elem?,
  set, replicate, length-set, ltb, lt→ltb, ◌==◌, Bool-cases, inl, inr, ◌⊎◌, arith,
}
use bt_dht_crawler.Prelude.Int.{pos}
use bt_dht_crawler.Prelude.Lists.{get_or, length-replicate}
use bt_dht_crawler.Prelude.Elements.{
  get_elem?-ext, get_or-set_self, get_or-set_ne, get_or-in_range, count_true, count_true-set,
  count_true-full, count_true-each,
}
use bt_dht_crawler.Bt.Metadata.Pieces.{piece_size, num_pieces, Collected, store_piece, nothing_yet}
use bt_dht_crawler.Bt.Metadata.Pieces.Copy.{slice, length-copy_at, copy_slice}

-- The bytes of the pieces received are those of `info`, and the pieces received are counted.
pub record IsPartOf (info : Bytes) (s : Collected) : Type 0 where
  pub sized : length s.metadata ≡ length info
  pub slots : length s.received ≡ num_pieces (length info)
  pub counted : s.pieces_received ≡ count_true s.received
  pub right :
      (j : ℕ)
      → j < length info
      → get_or s.received (j / piece_size) false ≡ true
      → get_elem? s.metadata j ≡ get_elem? info j

-- Storing a piece of `info` keeps the invariant.
pub store_piece-IsPartOf :
    (info : Bytes) (i : ℕ) (s : Collected)
    → i < num_pieces (length info)
    → IsPartOf info s
    → IsPartOf info (store_piece (num_pieces (length info)) (pos i) (slice i info) s)
unfolding store_piece
store_piece-IsPartOf info i s h v =
    let inside : ltb i (num_pieces (length info)) ≡ true = lt→ltb i (num_pieces (length info)) h in
    elim (Bool-cases (get_or s.received i true)) [
      | inl e ↦ rw (inside, e) v
      | inr e ↦
          rw (inside, e)
            (record {
              sized = length-copy_at (i * piece_size) (slice i info) s.metadata ∙ v.sized;
              slots = length-set s.received i true ∙ v.slots;
              counted = let c = v.counted in omega (arith, count_true-set s.received i e);
              right = λ j lt r. copy_slice i j info s.metadata v.sized lt (λ ne. v.right j lt (
                  sym (get_or-set_ne s.received i (j / piece_size) true false (λ q. ne (sym q)))
                  ∙ r));
            })
    ]

-- The piece is there afterwards, as are those that were.
pub store_piece-received :
    (info : Bytes) (i j : ℕ) (bs : Bytes) (s : Collected)
    → length s.received ≡ num_pieces (length info)
    → i < num_pieces (length info)
    → (i ≡ j) ⊎ (get_or s.received j false ≡ true)
    → get_or (store_piece (num_pieces (length info)) (pos i) bs s).received j false ≡ true
unfolding store_piece
store_piece-received info i j bs s slots h there =
    let inside : ltb i (num_pieces (length info)) ≡ true = lt→ltb i (num_pieces (length info)) h in
    elim (Bool-cases (get_or s.received i true)) [
      | inl e ↦
          rw (inside, e)
            (elim there [
              | inl same ↦
                  ap (λ k. get_or s.received k false) (sym same)
                  ∙ get_or-in_range s.received i false true (omega arith)
                  ∙ e
              | inr r ↦ r
            ])
      | inr e ↦
          rw (inside, e)
            (elim there [
              | inl same ↦
                  ap (λ k. get_or (set s.received i true) k false) (sym same)
                  ∙ get_or-set_self s.received i true false (omega arith)
              | inr r ↦ kept r e
            ])
    ]
  where
    kept :
        get_or s.received j false ≡ true
        → get_or s.received i true ≡ false
        → get_or (set s.received i true) j false ≡ true
    kept r e = elim (Bool-cases (i == j)) [
      | inl d ↦
          let same : i ≡ j = ground arith in
          ap (λ k. get_or (set s.received i true) k false) (sym same)
          ∙ get_or-set_self s.received i true false (omega arith)
      | inr d ↦ get_or-set_ne s.received i j true false (λ q. absurd (ground arith)) ∙ r
    ]

-- When as many pieces are received as there are, the metadata is `info`.
pub IsPartOf-whole :
    (info : Bytes) (s : Collected)
    → IsPartOf info s
    → num_pieces (length info) ≤ s.pieces_received
    → s.metadata ≡ info
IsPartOf-whole info s v h = get_elem?-ext s.metadata info v.sized λ j lt.
    let below : j < length info = omega (arith, v.sized) in
    v.right j below (
      count_true-full s.received (j / piece_size) (omega (arith, v.slots, v.counted))
        (omega (arith, v.slots)))

-- When each piece is received, they are counted in full.
pub IsPartOf-counted :
    (info : Bytes) (s : Collected)
    → IsPartOf info s
    → ((i : ℕ) → i < num_pieces (length info) → get_or s.received i false ≡ true)
    → num_pieces (length info) ≤ s.pieces_received
IsPartOf-counted info s v h =
    let full : count_true s.received ≡ length s.received =
      count_true-each s.received (λ i lt. h i (omega (arith, v.slots))) in
    omega (arith, full, v.slots, v.counted)

get_or-replicate : (n j : ℕ) → get_or (replicate n false) j false ≡ false
get_or-replicate zero j = refl
get_or-replicate (suc n) zero = refl
get_or-replicate (suc n) (suc j) = get_or-replicate n j

count_true-replicate : (n : ℕ) → count_true (replicate n false) ≡ 0
count_true-replicate zero = refl
count_true-replicate (suc n) = omega (arith, count_true-replicate n)

-- At the start nothing is received.
pub nothing_yet-IsPartOf : (info : Bytes) → IsPartOf info (nothing_yet (length info))
nothing_yet-IsPartOf info = record {
  sized = length-replicate (length info) 0;
  slots = length-replicate (num_pieces (length info)) false;
  counted = sym (count_true-replicate (num_pieces (length info)));
  right = λ j lt r.
      absurd (clash (sym (get_or-replicate (num_pieces (length info)) (j / piece_size)) ∙ r));
}
  where
    clash : false ≡ true → ⊥
    clash e = cc
