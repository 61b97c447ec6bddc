-- ===== src/Crawler/Cache.antt =====
-- internal/crawler/cache.go: `HashCache`, and the transaction of `InsertHashes` that it flushes to
-- (internal/storage/sqlite.go).
pub mod Conservation
use bt_dht_crawler.Prelude.{
  ℕ, zero, suc, ◌+◌, ◌-◌, ◌*◌, ◌^◌, ◌≤◌, ◌<◌, ◌≡◌, ◌≢◌, refl, sym, ap, ap₂, ◌∙◌, subst, Bool, true,
  false, not, ◌&&◌, ◌||◌, ◌/◌, ◌%◌, List, [], ◌∷◌, ◌++◌, append_assoc, append-nil, map, Bytes,
  codes, bytes_eq, bytes_eq→eq, eq→bytes_eq, bytes_eq_refl, Option-cases, length, length-append,
  take, drop, take-append, drop-append, All, All-append, Pairwise, Pairwise-middle, ltb, ltb→lt,
  leb, ◌==◌, if◌then◌else◌, Outcome, ok, err, panic, Error, ◌>>=◌, Bool-cases, inl, inr, ◌⊎◌, arith,
  Option, none, some,
}

-- `count` is an `int` of 64 bits, counting the discoveries of one hash between two flushes.
pub record CacheItem : Type 0 where
  pub hash : Bytes
  pub count : ℕ
  pub first_seen : ℕ

-- The map `items` as the list of its entries.
pub record HashCache : Type 0 where
  pub items : List CacheItem
  pub max_size : ℕ
  pub total_added : ℕ
  pub total_flushed : ℕ

-- The SQL database, which is no code of the repository: `exec_insert` is the prepared `INSERT … ON CONFLICT
-- DO UPDATE SET req_count = req_count + excluded.req_count`, `req_count` the column of that name, 0
-- where there is no row.
pub record Database : Type 1 where
  pub Db : Type 0
  pub begin : Db → Option Db
  pub exec_insert : Bytes → ℕ → Db → Option Db
  pub commit : Db → Option Db
  pub req_count : Bytes → Db → ℕ

-- What SQLite documents of them.
pub record IsDatabase (D : Database) : Type 0 where
  pub begin_keeps :
      (k : Bytes) (db tx : D.Db) → D.begin db ≡ some tx → D.req_count k tx ≡ D.req_count k db
  pub insert_adds :
      (h k : Bytes) (n : ℕ) (db tx : D.Db)
      → D.exec_insert h n db ≡ some tx
      → D.req_count k tx ≡ D.req_count k db + (if bytes_eq k h then n else 0)
  pub commit_keeps :
      (k : Bytes) (tx db : D.Db) → D.commit tx ≡ some db → D.req_count k db ≡ D.req_count k tx

unfoldable pub new_cache : ℕ → HashCache
new_cache max_size = record { items = []; max_size = max_size; total_added = 0; total_flushed = 0 }

-- The locked section of `Add` on the map.
unfoldable pub bump : Bytes → ℕ → List CacheItem → List CacheItem
bump hash now [] = record { hash = hash; count = 1; first_seen = now } ∷ []
bump hash now (i ∷ is) =
    if bytes_eq hash i.hash then record i { count = i.count + 1 } ∷ is else i ∷ bump hash now is

-- One round of the loop that puts a batch back.
unfoldable pub merge_item : CacheItem → List CacheItem → List CacheItem
merge_item item [] = item ∷ []
merge_item item (i ∷ is) =
    if bytes_eq item.hash i.hash
    then record i { count = i.count + item.count } ∷ is
    else i ∷ merge_item item is

unfoldable pub put_back : List CacheItem → List CacheItem → List CacheItem
unfolding merge_item
put_back [] items = items
put_back (i ∷ is) items = put_back is (merge_item i items)

module _ (D : Database) where
  -- `for hash, count := range hashes { stmt.Exec(…) }`, then the commit. A failed call rolls back: the
  -- database stays what it was.
  unfoldable pub insert_loop : List (Bytes × ℕ) → D.Db → Option D.Db
  insert_loop [] tx = D.commit tx
  insert_loop ((hash, count) ∷ hs) tx = elim (D.exec_insert hash count tx) [
    | none ↦ none
    | some tx' ↦ insert_loop hs tx'
  ]

  unfoldable pub insert_hashes : List (Bytes × ℕ) → D.Db → Option D.Db
  unfolding insert_loop
  insert_hashes hashes db = elim (D.begin db) [ none ↦ none | some tx ↦ insert_loop hashes tx ]

  abbrev pub hash_counts : List CacheItem → List (Bytes × ℕ)
  hash_counts = map (λ i. (i.hash, i.count))

  -- The first locked section of `Flush`: it takes the items, and the statistics count them at once.
  unfoldable pub take_items : HashCache → HashCache
  take_items c = record c {
    items = [];
    total_flushed = (c.total_flushed + length c.items) % 2 ^ 64;
  }

  -- The rest of `Flush`, after `InsertHashes` returned: on an error the batch goes back.
  unfoldable pub settle :
      List CacheItem → Option D.Db → HashCache → D.Db → HashCache × (D.Db × Bool)
  settle batch none c db = (record c { items = put_back batch c.items }, (db, false))
  settle batch (some db') c db = (c, (db', true))

  -- `Flush`, with whether it returned `nil`.
  unfoldable pub flush : HashCache → D.Db → HashCache × (D.Db × Bool)
  unfolding take_items settle
  flush c db = elim c.items [
    | [] ↦ (c, (db, true))
    | i ∷ is ↦ settle (i ∷ is) (insert_hashes (hash_counts (i ∷ is)) db) (take_items c) db
  ]

  -- `Add` up to the flush it may start.
  unfoldable pub add_item : Bytes → ℕ → HashCache → HashCache
  add_item hash now c = record c {
    items = bump hash now c.items;
    total_added = (c.total_added + 1) % 2 ^ 64;
  }

  abbrev pub should_flush : HashCache → Bool
  should_flush c = leb c.max_size (length c.items)

  -- `Add`, whose flush has its error ignored.
  unfoldable pub add : Bytes → ℕ → HashCache → D.Db → HashCache × D.Db
  unfolding add_item
  add hash now c db =
      if should_flush (add_item hash now c)
      then ((flush (add_item hash now c) db).0, (flush (add_item hash now c) db).1.0)
      else (add_item hash now c, db)

  -- The ticks of `StartFlusher`, and the last flush when its context is done.
  unfoldable pub start_flusher : ℕ → HashCache → D.Db → HashCache × (D.Db × Bool)
  unfolding flush
  start_flusher zero c db = flush c db
  start_flusher (suc ticks) c db = start_flusher ticks (flush c db).0 (flush c db).1.0

-- `Stats`.
unfoldable pub cache_stats : HashCache → ℕ × (ℕ × ℕ)
cache_stats c = (c.total_added, (c.total_flushed, length c.items))
