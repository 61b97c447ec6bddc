-- ===== src/Crawler/Cache/Conservation.antt =====
-- No discovery is lost and none is counted twice, however the goroutines interleave.
use bt_dht_crawler.Prelude.{
  ℕ, ◌+◌, ◌≡◌, refl, ap, Bool, true, false, List, [], ◌∷◌, ◌++◌, Bytes, bytes_eq, bytes_eq-same,
  times, Option-cases, if◌then◌else◌, Bool-cases, inl, inr, arith, none, some,
}
use bt_dht_crawler.Crawler.Cache.{
  CacheItem, HashCache, Database, IsDatabase, new_cache, bump, merge_item, put_back, insert_loop,
  insert_hashes, hash_counts, take_items, settle, flush, add_item,
}

-- The discoveries of `k` among the items, and among the batches.
abbrev pub count_in : Bytes → List CacheItem → ℕ
count_in k [] = 0
count_in k (i ∷ is) = (if bytes_eq k i.hash then i.count else 0) + count_in k is

abbrev pub count_batches : Bytes → List (List CacheItem) → ℕ
count_batches k [] = 0
count_batches k (b ∷ bs) = count_in k b + count_batches k bs

if_add :
    (b : Bool) (m n : ℕ) → (if b then m + n else 0) ≡ (if b then m else 0) + (if b then n else 0)
if_add true m n = refl
if_add false m n = refl

count_in-bump :
    (k h : Bytes) (now : ℕ) (is : List CacheItem)
    → count_in k (bump h now is) ≡ count_in k is + (if bytes_eq k h then 1 else 0)
unfolding bump
count_in-bump k h now [] = omega arith
count_in-bump k h now (i ∷ is) = elim (Bool-cases (bytes_eq h i.hash)) [
  | inl e ↦ rw (e, bytes_eq-same k h i.hash e, if_add (bytes_eq k h) i.count 1) (omega arith)
  | inr e ↦ rw e (omega (arith, count_in-bump k h now is))
]

count_in-merge_item :
    (k : Bytes) (item : CacheItem) (is : List CacheItem)
    → count_in k (merge_item item is)
      ≡ count_in k is + (if bytes_eq k item.hash then item.count else 0)
unfolding merge_item
count_in-merge_item k item [] = omega arith
count_in-merge_item k item (i ∷ is) = elim (Bool-cases (bytes_eq item.hash i.hash)) [
  | inl e ↦
      rw (e, bytes_eq-same k item.hash i.hash e, if_add (bytes_eq k item.hash) i.count item.count)
        (omega arith)
  | inr e ↦ rw e (omega (arith, count_in-merge_item k item is))
]

count_in-put_back :
    (k : Bytes) (batch is : List CacheItem)
    → count_in k (put_back batch is) ≡ count_in k batch + count_in k is
unfolding put_back
count_in-put_back k [] is = omega arith
count_in-put_back k (i ∷ batch) is =
    omega (arith, count_in-put_back k batch (merge_item i is), count_in-merge_item k i is)

count_batches-middle :
    (k : Bytes) (before after : List (List CacheItem)) (b : List CacheItem)
    → count_batches k (before ++ (b ∷ after)) ≡ count_in k b + count_batches k (before ++ after)
count_batches-middle k [] after b = refl
count_batches-middle k (x ∷ before) after b = omega (arith, count_batches-middle k before after b)

module _ (D : Database) (L : IsDatabase D) where
  count_in-insert_loop :
      (k : Bytes) (is : List CacheItem) (tx db : D.Db)
      → insert_loop D (hash_counts D is) tx ≡ some db
      → D.req_count k db ≡ D.req_count k tx + count_in k is
  unfolding insert_loop
  count_in-insert_loop k [] tx db e = omega (arith, L.commit_keeps k tx db e)
  count_in-insert_loop k (i ∷ is) tx db e = elim (Option-cases (D.exec_insert i.hash i.count tx)) [
    | inl p ↦ let q : none ≡ some db = rw p at e in cc
    | inr (tx', p) ↦
        let q : insert_loop D (hash_counts D is) tx' ≡ some db = rw p at e in
        omega (arith, count_in-insert_loop k is tx' db q, L.insert_adds i.hash k i.count tx tx' p)
  ]

  count_in-insert_hashes :
      (k : Bytes) (is : List CacheItem) (db db' : D.Db)
      → insert_hashes D (hash_counts D is) db ≡ some db'
      → D.req_count k db' ≡ D.req_count k db + count_in k is
  unfolding insert_hashes
  count_in-insert_hashes k is db db' e = elim (Option-cases (D.begin db)) [
    | inl p ↦ let q : none ≡ some db' = rw (insert_hashes, p) at e in cc
    | inr (tx, p) ↦
        let q : insert_loop D (hash_counts D is) tx ≡ some db' = rw (insert_hashes, p) at e in
        omega (arith, count_in-insert_loop k is tx db' q, L.begin_keeps k db tx p)
  ]

  -- What `settle` leaves of a batch: in the database or back in the cache.
  count-settle :
      (k : Bytes) (batch : List CacheItem) (c : HashCache) (db : D.Db)
      → D.req_count k (settle D batch (insert_hashes D (hash_counts D batch) db) c db).1.0
          + count_in k (settle D batch (insert_hashes D (hash_counts D batch) db) c db).0.items
        ≡ D.req_count k db + (count_in k batch + count_in k c.items)
  unfolding settle
  count-settle k batch c db = elim (Option-cases (insert_hashes D (hash_counts D batch) db)) [
    | inl p ↦ rw p (omega (arith, count_in-put_back k batch c.items))
    | inr (db', p) ↦ rw p (omega (arith, count_in-insert_hashes k batch db db' p))
  ]

-- The cache, the batches whose `InsertHashes` has not returned yet, and the database.
pub record System (D : Database) : Type 0 where
  pub cache : HashCache
  pub batches : List (List CacheItem)
  pub db : D.Db

abbrev pub added : (D : Database) → Bytes → ℕ → System D → System D
added D h now s = record s { cache = add_item D h now s.cache }

abbrev pub taken : (D : Database) → System D → System D
taken D s = record s { cache = take_items D s.cache; batches = s.cache.items ∷ s.batches }

abbrev pub settled :
    (D : Database)
    → List (List CacheItem)
    → List CacheItem
    → List (List CacheItem)
    → HashCache
    → D.Db
    → System D
settled D before batch after c db = record {
  cache = (settle D batch (insert_hashes D (hash_counts D batch) db) c db).0;
  batches = before ++ after;
  db = (settle D batch (insert_hashes D (hash_counts D batch) db) c db).1.0;
}

-- The reachable states with the hashes added on the way: calls of `Add`, flushes that take the items, and
-- flushes that end, in any order.
pub data Run (D : Database) (max_size : ℕ) (db0 : D.Db) : List Bytes → System D → Type 0 where
  starts : Run D max_size db0 [] (record { cache = new_cache max_size; batches = []; db = db0 })
  adds :
      (h : Bytes) (now : ℕ) (log : List Bytes) (s : System D)
      → Run D max_size db0 log s
      → Run D max_size db0 (h ∷ log) (added D h now s)
  takes :
      (log : List Bytes) (s : System D)
      → Run D max_size db0 log s
      → Run D max_size db0 log (taken D s)
  settles :
      (log : List Bytes) (before : List (List CacheItem)) (batch : List CacheItem)
      (after : List (List CacheItem)) (c : HashCache) (db : D.Db)
      → Run D max_size db0 log (record { cache = c; batches = before ++ (batch ∷ after); db = db })
      → Run D max_size db0 log (settled D before batch after c db)

-- Over a database that keeps its laws, however calls of `Add` and flushes, failing ones included,
-- interleave: what the database counts for a hash, what the cache holds for it and what batches
-- under way hold for it sum up to what the database counted at the start and the number of times
-- the hash was added.
pub Run-conserves :
    (D : Database) (L : IsDatabase D) (max_size : ℕ) (db0 : D.Db) (log : List Bytes) (s : System D)
    (k : Bytes)
    → Run D max_size db0 log s
    → D.req_count k s.db + (count_in k s.cache.items + count_batches k s.batches)
      ≡ D.req_count k db0 + times k log
unfolding new_cache add_item take_items
Run-conserves D L max_size db0 log s k Run.starts = omega arith
Run-conserves D L max_size db0 log s k (Run.adds h now log' s' r) =
    omega (arith, Run-conserves D L max_size db0 log' s' k r, count_in-bump k h now s'.cache.items)
Run-conserves D L max_size db0 log s k (Run.takes log' s' r) =
    omega (arith, Run-conserves D L max_size db0 log' s' k r)
Run-conserves D L max_size db0 log s k (Run.settles log' before batch after c db r) = omega (
  arith,
  Run-conserves D L max_size db0 log' _ k r,
  count-settle D L k batch c db,
  count_batches-middle k before after batch,
)

-- Over a database that keeps its laws a `Flush` that nothing interrupts loses nothing: the
-- database and the cache together count the same for every hash before and after it, whether it
-- succeeds or fails.
pub flush-conserves :
    (D : Database) (L : IsDatabase D) (c : HashCache) (db : D.Db) (k : Bytes)
    → D.req_count k (flush D c db).1.0 + count_in k (flush D c db).0.items
      ≡ D.req_count k db + count_in k c.items
unfolding flush take_items
flush-conserves D L c db k = by_items c.items refl
  where
    by_items :
        (is : List CacheItem)
        → c.items ≡ is
        → D.req_count k (flush D c db).1.0 + count_in k (flush D c db).0.items
          ≡ D.req_count k db + count_in k c.items
    by_items [] e = rw (e, flush) (omega (arith, ap (count_in k) e))
    by_items (i ∷ is) e =
        rw (e, flush) (omega (arith, count-settle D L k (i ∷ is) (take_items D c) db))
