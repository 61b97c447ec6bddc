-- ===== src/Tests/Pages.antt =====
-- A walk through the pages of a search at a concrete database.
use bt_dht_crawler.Prelude.{
  ℕ, ◌≡◌, refl, false, List, ◌++◌, codes, length, take, drop, replicate, inr, arith, none, some,
}
use bt_dht_crawler.Prelude.Int.{ℤ, pos, negsuc}
use bt_dht_crawler.Storage.{Queries, Rows}
use bt_dht_crawler.Web.Walk.{walk, walk-all}

-- 45 rows, searched without an index.
abbrev all_rows : List ℕ
all_rows = replicate 22 1 ++ replicate 23 2

abbrev window : ℕ → ℤ → Rows ℕ
window n (pos off) = Rows.rows (take n (drop off all_rows)) false
window n (negsuc off) = Rows.refused

abbrev by_like : Queries ℕ
by_like = record {
  has_fts5 = false;
  count_fts = λ q. none;
  count_like = λ q. some (length all_rows);
  select_fts = λ q n off. Rows.refused;
  select_like = λ q n off. window n off;
}

walk-all_example : walk by_like (codes "linux") 3 (pos 1) ≡ some all_rows
walk-all_example =
    walk-all by_like b'l' (codes "inux") all_rows (inr (refl, refl, λ n off. refl)) (omega arith)
