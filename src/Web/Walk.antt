-- ===== src/Web/Walk.antt =====
-- A reader who goes from page to page.
use bt_dht_crawler.Prelude.{
  ℕ, zero, suc, ◌+◌, ◌-◌, ◌*◌, ◌^◌, ◌≤◌, ◌<◌, ◌≡◌, refl, sym, ap, ◌∙◌, true, false, ◌/◌, ◌%◌, List,
  [], ◌∷◌, ◌++◌, Bytes, length, take, drop, length-drop, ltb, lt→ltb, le→not_ltb, if◌then◌else◌,
  inl, inr, ◌⊎◌, arith, Option, none, some,
}
use bt_dht_crawler.Prelude.Int.{ℤ, pos}
use bt_dht_crawler.Prelude.Int.{ℤ, pos}
use bt_dht_crawler.Prelude.Int.{wrap_int64}
use bt_dht_crawler.Prelude.Lists.{take-append-drop}
use bt_dht_crawler.Storage.{Queries, Rows, search, search_like}
use bt_dht_crawler.Web.{page_number, page_offset, total_pages, handle_search, found_for}

-- What a reader sees who starts at a page and follows the link to the next one, until a page has none: some rows
-- if that page is the last of this many pages, and nothing if it is not.
unfoldable pub walk : {R : Type 0} → Queries R → Bytes → ℕ → ℤ → Option (List R)
unfolding handle_search
walk Q query zero page = none
walk Q query (suc zero) page =
    if (handle_search Q query page).has_next
    then none
    else some (handle_search Q query page).results
walk Q query (suc (suc n)) page =
    let rest = walk Q query (suc n) (handle_search Q query page).next_page in
    if (handle_search Q query page).has_next
    then elim rest [ none ↦ none | some rows ↦ some ((handle_search Q query page).results ++ rows) ]
    else none

-- The statements of one of the two ways of searching answer a query from this list, as SQL says of `COUNT(*)` and of
-- `LIMIT` and `OFFSET` over rows that stay the same.
abbrev pub Answers : {R : Type 0} → Queries R → Bytes → List R → Type 0
Answers Q query all =
    ((Q.has_fts5 ≡ true)
      × (Q.count_fts query ≡ some (length all))
      × ((n off : ℕ) → Q.select_fts query n (pos off) ≡ Rows.rows (take n (drop off all)) false))
    ⊎ ((Q.has_fts5 ≡ false)
        × (Q.count_like query ≡ some (length all))
        × ((n off : ℕ) → Q.select_like query n (pos off) ≡ Rows.rows (take n (drop off all)) false))

search-Answers :
    {R : Type 0} (Q : Queries R) (query : Bytes) (all : List R) (n off : ℕ)
    → Answers Q query all
    → search Q query n (pos off)
      ≡ record { results = take n (drop off all); total = length all; failed = false }
unfolding search search_like
search-Answers Q query all n off (inl (fts, count, select)) =
    rw (search, fts, count, select n off) refl
search-Answers Q query all n off (inr (like, count, select)) =
    rw (search, like, search_like, count, select n off) refl

wrap_int64-small : (n : ℕ) → n < 2 ^ 63 → wrap_int64 (pos n) ≡ pos n
unfolding wrap_int64
wrap_int64-small n h =
    let same : n % 2 ^ 64 ≡ n = omega arith in rw (same, lt→ltb n (2 ^ 63) h) refl

-- A page of the walk.
handle_search-Answers :
    {R : Type 0} (Q : Queries R) (b : ℕ) (query : Bytes) (all : List R) (k : ℕ)
    → Answers Q (b ∷ query) all
    → k * 20 < 2 ^ 62
    → ((handle_search Q (b ∷ query) (pos (suc k))).results ≡ take 20 (drop (k * 20) all))
      × ((handle_search Q (b ∷ query) (pos (suc k))).has_next
          ≡ ltb (suc k) (total_pages 20 (length all)))
      × ((handle_search Q (b ∷ query) (pos (suc k))).next_page ≡ pos (suc (suc k)))
unfolding handle_search found_for page_number page_offset
handle_search-Answers Q b query all k answers small =
    let from : wrap_int64 (pos ((suc k - 1) * 20)) ≡ pos (k * 20) =
      ap (λ n. wrap_int64 (pos n)) (omega arith) ∙ wrap_int64-small (k * 20) (omega arith) in
    let found : search Q (b ∷ query) 20 (wrap_int64 (pos ((suc k - 1) * 20)))
        ≡ record { results = take 20 (drop (k * 20) all); total = length all; failed = false } =
      ap (search Q (b ∷ query) 20) from ∙ search-Answers Q (b ∷ query) all 20 (k * 20) answers in
    (
      ap (λ r. r.results) found,
      ap (λ r. ltb (suc k) (total_pages 20 r.total)) found,
      wrap_int64-small (suc k + 1) (omega arith) ∙ ap pos (omega arith),
    )

drop-nil : (R : Type 0) (m : ℕ) → drop {A = R} m [] ≡ []
drop-nil R zero = refl
drop-nil R (suc m) = refl

drop-drop : {R : Type 0} (m n : ℕ) (xs : List R) → drop m (drop n xs) ≡ drop (n + m) xs
drop-drop m zero xs = ap (λ w. drop w xs) (omega arith)
drop-drop m (suc n) [] = drop-nil _ m ∙ sym (drop-nil _ (suc n + m))
drop-drop m (suc n) (x ∷ xs) =
    let one_more : suc (n + m) ≡ suc n + m = omega arith in
    drop-drop m n xs ∙ ap (λ w. drop w (x ∷ xs)) one_more

take_all : {R : Type 0} (n : ℕ) (xs : List R) → length xs ≤ n → take n xs ≡ xs
take_all zero [] h = refl
take_all zero (x ∷ xs) h = absurd (omega arith)
take_all (suc n) [] h = refl
take_all (suc n) (x ∷ xs) h = ap (◌∷◌ x) (take_all n xs (omega arith))

-- From a page within the list on: `n` pages follow it.
walk-from :
    {R : Type 0} (Q : Queries R) (b : ℕ) (query : Bytes) (all : List R) (n k : ℕ)
    → Answers Q (b ∷ query) all
    → length all < 2 ^ 61
    → total_pages 20 (length all) ≤ suc (k + n)
    → suc (k + n) ≤ 1 + (length all - 1) / 20
    → walk Q (b ∷ query) (suc n) (pos (suc k)) ≡ some (drop (k * 20) all)
unfolding walk total_pages
walk-from Q b query all zero k answers small until within =
    let (seen, more, next) = handle_search-Answers Q b query all k answers (omega arith) in
    let last : ltb (suc k) (total_pages 20 (length all)) ≡ false =
      le→not_ltb (suc k) (total_pages 20 (length all)) (omega (arith, until)) in
    rw (seen, more, last)
      (ap some (take_all 20 (drop (k * 20) all) (omega (arith, until, length-drop (k * 20) all))))
walk-from Q b query all (suc n) k answers small until within =
    let (seen, more, next) = handle_search-Answers Q b query all k answers (omega arith) in
    let goes_on : ltb (suc k) (total_pages 20 (length all)) ≡ true =
      lt→ltb (suc k) (total_pages 20 (length all)) (omega (arith, within)) in
    let rest : walk Q (b ∷ query) (suc n) (pos (suc (suc k))) ≡ some (drop (suc k * 20) all) =
      walk-from Q b query all n (suc k) answers small (omega (arith, until))
        (omega (arith, within)) in
    rw (walk, more, goes_on, next, rest, seen)
      (ap some (
        ap (λ w. take 20 (drop (k * 20) all) ++ w)
          (ap (λ m. drop m all) (omega arith) ∙ sym (drop-drop 20 (k * 20) all))
        ∙ take-append-drop 20 (drop (k * 20) all)))

-- Let the database answer a query that is not empty from a list of less than 2^61 rows that stays the same. Then a
-- reader who starts at the first page of the search and follows the links sees every row, once and in order; and the
-- page without a link is the one that completes 1 + (rows - 1) / 20 pages, neither an earlier nor a later one (the
-- first page if there are no rows).
pub walk-all :
    {R : Type 0} (Q : Queries R) (b : ℕ) (query : Bytes) (all : List R)
    → Answers Q (b ∷ query) all
    → length all < 2 ^ 61
    → walk Q (b ∷ query) (suc ((length all - 1) / 20)) (pos 1) ≡ some all
walk-all Q b query all answers small =
    walk-from Q b query all ((length all - 1) / 20) 0 answers small
      (unfold total_pages in omega arith) (omega arith)
