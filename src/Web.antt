-- ===== src/Web.antt =====
-- internal/web/server.go: the pages of results. `atoi` is what `strconv.Atoi` returns of a parameter, its error
-- dropped.
pub mod Walk
use bt_dht_crawler.Prelude.{
  ℕ, zero, suc, ◌+◌, ◌-◌, ◌*◌, ◌^◌, ◌≤◌, ◌<◌, ◌≡◌, ◌≢◌, refl, sym, ap, ap₂, ◌∙◌, subst, Bool, true,
  false, not, ◌&&◌, ◌||◌, ◌/◌, ◌%◌, List, [], ◌∷◌, ◌++◌, append_assoc, append-nil, map, min, Bytes,
  codes, bytes_eq, bytes_eq→eq, eq→bytes_eq, bytes_eq_refl, bytes_eq-same, times, Option-cases,
  length, length-append, take, drop, get_elem?, set, replicate, length-set, length-take,
  length-drop, take-append, drop-append, All, All-append, Pairwise, Pairwise-middle, ltb, ltb→lt,
  lt→ltb, not_ltb→le, le→not_ltb, leb, ◌==◌, if◌then◌else◌, Outcome, ok, err, panic, Error, ◌>>=◌,
  Ends, Ends-bind, Ends-mono, Ends-if, Always, Bool-cases, inl, inr, ◌⊎◌, arith, Option, none, some,
}
use bt_dht_crawler.Prelude.Int.{ℤ, pos, negsuc, IsInt64}
use bt_dht_crawler.Prelude.Int.{wrap_int64}
use bt_dht_crawler.Storage.{Queries, SearchResults, search}

-- `if page < 1 { page = 1 }`
unfoldable pub page_number : ℤ → ℕ
page_number (negsuc n) = 1
page_number (pos zero) = 1
page_number (pos (suc n)) = suc n

-- `(page - 1) * perPage`
unfoldable pub page_offset : ℕ → ℕ → ℤ
unfolding wrap_int64
page_offset per_page page = wrap_int64 (pos ((page - 1) * per_page))

-- `(total + perPage - 1) / perPage`, for a count of rows that leaves room in an `int`.
unfoldable pub total_pages : ℕ → ℕ → ℕ
total_pages per_page total = (total + per_page - 1) / per_page

abbrev pub search_per_page : ℕ
search_per_page = 20

-- The data of a page of results.
pub record Page (R : Type 0) : Type 0 where
  pub results : List R
  pub total : ℕ
  pub page : ℕ
  pub pages : ℕ
  pub has_prev : Bool
  pub has_next : Bool
  pub prev_page : ℕ
  pub next_page : ℤ

-- The answer of `handleAPISearch`.
pub record ApiPage (R : Type 0) : Type 0 where
  pub results : List R
  pub total : ℕ
  pub page : ℕ
  pub per_page : ℕ
  pub pages : ℕ

module _ {R : Type 0} where
  abbrev pub page_of : ℕ → ℕ → List R → ℕ → Page R
  page_of per_page page results total = record {
    results = results;
    total = total;
    page = page;
    pages = total_pages per_page total;
    has_prev = ltb 1 page;
    has_next = ltb page (total_pages per_page total);
    prev_page = page - 1;
    next_page = wrap_int64 (pos (page + 1));
  }

  -- The search of `handleSearch`: none for an empty query, and an error is only logged.
  unfoldable pub found_for : Queries R → Bytes → ℕ → List R × ℕ
  unfolding search page_offset
  found_for Q [] page = ([], 0)
  found_for Q (b ∷ query) page =
      let r = search Q (b ∷ query) search_per_page (page_offset search_per_page page) in
      (r.results, r.total)

  -- `handleSearch`, given what `atoi` returned of `page`.
  unfoldable pub handle_search : Queries R → Bytes → ℤ → Page R
  unfolding found_for page_number total_pages wrap_int64
  handle_search Q query atoi =
      let page = page_number atoi in
      let found = found_for Q query page in page_of search_per_page page found.0 found.1

  -- `handleAPISearch`: an error is an internal server error.
  unfoldable pub handle_api_search : Queries R → Bytes → ℤ → Outcome (ApiPage R)
  unfolding search page_offset page_number total_pages
  handle_api_search Q query atoi =
      let page = page_number atoi in
      let r = search Q query search_per_page (page_offset search_per_page page) in
      if r.failed
      then err Error.external
      else ok (record {
        results = r.results;
        total = r.total;
        page = page;
        per_page = search_per_page;
        pages = total_pages search_per_page r.total;
      })

-- `if limit <= 0 || limit > 100 { limit = 20 }`
unfoldable pub list_limit : ℤ → ℕ
list_limit (negsuc n) = 20
list_limit (pos n) = if (n == 0) || ltb 100 n then 20 else n

abbrev pub sitemap_per_page : ℕ
sitemap_per_page = 50

module _ {T : Type 0} where
  -- `handleSitemap`, given `GetAllTorrents` and the count of torrents, which is 0 if it failed.
  unfoldable pub handle_sitemap : (ℕ → ℤ → Outcome (List T)) → ℕ → ℤ → Outcome (Page T)
  unfolding page_offset page_number total_pages wrap_int64
  handle_sitemap get_all_torrents total atoi =
      let page = page_number atoi in
      get_all_torrents sitemap_per_page (page_offset sitemap_per_page page) >>= λ torrents.
      ok (page_of sitemap_per_page page torrents total)

  -- `handleAPIRecent` and `handleAPIPopular`, given the query of the storage.
  abbrev pub handle_api_list : (ℕ → Outcome (List T)) → ℤ → Outcome (List T)
  handle_api_list torrents atoi = torrents (list_limit atoi)
