-- ===== src/Storage.antt =====
-- internal/storage/sqlite.go: `Search` with its fallback. The SQL statements are parameters.
use bt_dht_crawler.Prelude.{ℕ, Bool, true, List, [], Bytes, if◌then◌else◌, Option, none, some}
use bt_dht_crawler.Prelude.Int.{ℤ}

-- What a query of rows comes to: it is refused, a row is not read, or the rows come, with an error at the end or
-- without.
pub data Rows (R : Type 0) : Type 0 where
  refused bad_row : Rows R
  rows : List R → Bool → Rows R

-- The statements, with the limit and the offset of the selections.
pub record Queries (R : Type 0) : Type 0 where
  pub has_fts5 : Bool
  pub count_fts : Bytes → Option ℕ
  pub count_like : Bytes → Option ℕ
  pub select_fts : Bytes → ℕ → ℤ → Rows R
  pub select_like : Bytes → ℕ → ℤ → Rows R

-- The three results; `failed` is an error that is not `nil`.
pub record SearchResults (R : Type 0) : Type 0 where
  pub results : List R
  pub total : ℕ
  pub failed : Bool

module _ {R : Type 0} where
  abbrev pub nothing_found : SearchResults R
  nothing_found = record { results = []; total = 0; failed = true }

  abbrev pub scanned_like : ℕ → Rows R → SearchResults R
  scanned_like total Rows.refused = nothing_found
  scanned_like total Rows.bad_row = nothing_found
  scanned_like total (Rows.rows rs failed) = record { results = rs; total = total; failed = failed }

  -- `searchLike`
  unfoldable pub search_like : Queries R → Bytes → ℕ → ℤ → SearchResults R
  search_like Q query limit offset = elim (Q.count_like query) [
    | none ↦ nothing_found
    | some total ↦ scanned_like total (Q.select_like query limit offset)
  ]

  abbrev pub scanned_fts : SearchResults R → ℕ → Rows R → SearchResults R
  scanned_fts fallback total Rows.refused = fallback
  scanned_fts fallback total Rows.bad_row = nothing_found
  scanned_fts fallback total (Rows.rows rs failed) = record {
    results = rs;
    total = total;
    failed = failed;
  }

  abbrev pub counted_fts : SearchResults R → Option ℕ → Rows R → SearchResults R
  counted_fts fallback none answer = fallback
  counted_fts fallback (some total) answer = scanned_fts fallback total answer

  -- `Search`
  unfoldable pub search : Queries R → Bytes → ℕ → ℤ → SearchResults R
  unfolding search_like
  search Q query limit offset =
      let fallback = search_like Q query limit offset in
      if Q.has_fts5
      then counted_fts fallback (Q.count_fts query) (Q.select_fts query limit offset)
      else fallback
