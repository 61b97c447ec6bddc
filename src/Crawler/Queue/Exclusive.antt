-- ===== src/Crawler/Queue/Exclusive.antt =====
-- No torrent is queued twice, nor queued while a worker has it.
use bt_dht_crawler.Prelude.{
  ℕ, ◌+◌, ◌≤◌, ◌<◌, ◌≡◌, refl, Bool, true, false, List, [], ◌∷◌, ◌++◌, Bytes, bytes_eq, bytes_eq→eq,
  bytes_eq-same, times, length, length-append, leb, if◌then◌else◌, Bool-cases, inl, inr, arith,
}
use bt_dht_crawler.Crawler.Queue.{
  DownloadItem, DownloadQueue, loaded, delete, append_item, stored, refill_loop,
}

abbrev pub one : Bytes → Bytes → ℕ
one k h = if bytes_eq k h then 1 else 0

-- How often a torrent is queued, and how often it is among the jobs.
abbrev pub queued : Bytes → List DownloadItem → ℕ
queued k [] = 0
queued k (i ∷ is) = one k i.info_hash + queued k is

abbrev pub working : Bytes → List (Bytes × Bytes) → ℕ
working k [] = 0
working k ((h, a) ∷ js) = one k h + working k js

pub queued-append :
    (k : Bytes) (is js : List DownloadItem) → queued k (is ++ js) ≡ queued k is + queued k js
queued-append k [] js = omega arith
queued-append k (i ∷ is) js = omega (arith, queued-append k is js)

pub working-append :
    (k : Bytes) (is js : List (Bytes × Bytes)) → working k (is ++ js) ≡ working k is + working k js
working-append k [] js = omega arith
working-append k ((h, a) ∷ is) js = omega (arith, working-append k is js)

-- The keys in flight are those that `r` counts, each once.
abbrev pub Agree : List Bytes → (Bytes → ℕ) → Type 0
Agree l r = (k : Bytes) → (times k l ≡ r k) × (r k ≤ 1)

pub Agree-along :
    (l : List Bytes) (r s : Bytes → ℕ) → ((k : Bytes) → r k ≡ s k) → Agree l r → Agree l s
Agree-along l r s e a k = let (p, q) = a k in (omega (arith, e k), omega (arith, e k))

times-loaded : (k : Bytes) (l : List Bytes) → loaded k l ≡ false → times k l ≡ 0
unfolding loaded
times-loaded k [] e = refl
times-loaded k (h ∷ l) e = ground (arith, times-loaded k l)

times-delete :
    (k h : Bytes) (l : List Bytes) → times k (delete h l) ≡ (if bytes_eq k h then 0 else times k l)
unfolding delete
times-delete k h [] = elim (Bool-cases (bytes_eq k h)) [ inl e ↦ rw e refl | inr e ↦ rw e refl ]
times-delete k h (x ∷ l) =
    let rest = times-delete k h l in
    elim (Bool-cases (bytes_eq h x)) [
      | inl e ↦ rw (e, bytes_eq-same k h x e) (same (bytes_eq k h) rest)
      | inr e ↦ elim (Bool-cases (bytes_eq k h)) [
        | inl d ↦
            let ne : bytes_eq k x ≡ false = rw (bytes_eq→eq k h d) e in
            let r : times k (delete h l) ≡ 0 = rw d at rest in rw (e, d, ne) (omega (arith, r))
        | inr d ↦
            let r : times k (delete h l) ≡ times k l = rw d at rest in rw (e, d) (omega (arith, r))
      ]
    ]
  where
    same :
        (b : Bool)
        → times k (delete h l) ≡ (if b then 0 else times k l)
        → times k (delete h l) ≡ (if b then 0 else (if b then 1 else 0) + times k l)
    same true e = e
    same false e = omega (arith, e)

Agree-add :
    (h : Bytes) (l : List Bytes) (r : Bytes → ℕ)
    → loaded h l ≡ false
    → Agree l r
    → Agree (h ∷ l) (λ k. one k h + r k)
Agree-add h l r fresh a k =
    let (p, q) = a k in
    elim (Bool-cases (bytes_eq k h)) [
      | inl e ↦
          let none_yet : times k l ≡ 0 = rw (bytes_eq→eq k h e) (times-loaded h l fresh) in
          rw e (omega arith, omega arith)
      | inr e ↦ rw e (omega arith, omega arith)
    ]

pub Agree-delete :
    (h : Bytes) (l : List Bytes) (r : Bytes → ℕ)
    → Agree l (λ k. one k h + r k)
    → Agree (delete h l) r
Agree-delete h l r a k =
    let (p, q) = a k in
    elim (Bool-cases (bytes_eq k h)) [
      | inl e ↦
          let p' : times k l ≡ 1 + r k = rw e at p in
          let q' : 1 + r k ≤ 1 = rw e at q in
          (rw (times-delete k h l, e) (omega (arith, q')), omega (arith, q'))
      | inr e ↦
          let p' : times k l ≡ 0 + r k = rw e at p in
          let q' : 0 + r k ≤ 1 = rw e at q in
          (rw (times-delete k h l, e) (omega (arith, p')), omega (arith, q'))
    ]

-- A queue beside jobs that `w` counts.
pub record IsQueue (w : Bytes → ℕ) (q : DownloadQueue) : Type 0 where
  pub agree : Agree q.in_flight (λ k. queued k q.items + w k)
  pub fits : length q.items ≤ q.max_size

-- The reservation of a hash that is not in flight.
pub stored-IsQueue :
    (w : Bytes → ℕ) (h : Bytes) (q : DownloadQueue)
    → loaded h q.in_flight ≡ false
    → IsQueue w q
    → IsQueue (λ k. one k h + w k) (stored h q)
stored-IsQueue w h q fresh v = record {
  agree =
      Agree-along (h ∷ q.in_flight) _ _ (λ k. omega arith)
        (Agree-add h q.in_flight (λ k. queued k q.items + w k) fresh v.agree);
  fits = v.fits;
}

-- The step behind the lock, for a reserved hash.
pub append_item-IsQueue :
    (w : Bytes → ℕ) (item : DownloadItem) (q : DownloadQueue)
    → IsQueue (λ k. one k item.info_hash + w k) q
    → IsQueue w (append_item item q).0
unfolding append_item
append_item-IsQueue w item q v =
    let more =
      Agree-along q.in_flight _ (λ k. one k item.info_hash + (queued k q.items + w k))
        (λ k. omega arith) v.agree in
    elim (Bool-cases (leb q.max_size (length q.items))) [
      | inl full ↦ rw full (record {
        agree = Agree-delete item.info_hash q.in_flight (λ k. queued k q.items + w k) more;
        fits = v.fits;
      })
      | inr room ↦ rw room (record {
        agree =
            Agree-along q.in_flight _ _ (λ k. omega (arith, queued-append k q.items (item ∷ [])))
              more;
        fits = room_left room;
      })
    ]
  where
    room_left :
        leb q.max_size (length q.items) ≡ false → length (q.items ++ (item ∷ [])) ≤ q.max_size
    room_left e =
        let lt : length q.items < q.max_size = below (length q.items) q.max_size e in
        omega (arith, length-append q.items (item ∷ []))
      where
        below : (a b : ℕ) → leb b a ≡ false → a < b
        below a b e = ground arith

pub refill_loop-IsQueue :
    (w : Bytes → ℕ) (hs : List (Bytes × ℕ)) (now : ℕ) (q : DownloadQueue)
    → IsQueue w q
    → IsQueue w (refill_loop hs now q)
unfolding refill_loop
refill_loop-IsQueue w [] now q v = v
refill_loop-IsQueue w ((h, n) ∷ hs) now q v = elim (Bool-cases (loaded h q.in_flight)) [
  | inl e ↦ rw e (refill_loop-IsQueue w hs now q v)
  | inr e ↦
      let item : DownloadItem = record {
        info_hash = h;
        peer_addr = [];
        req_count = n;
        added_at = now;
      } in
      let next = append_item-IsQueue w item (stored h q) (stored-IsQueue w h q e v) in
      elim (Bool-cases (append_item item (stored h q)).1) [
        | inl d ↦ rw (e, d) (refill_loop-IsQueue w hs now _ next)
        | inr d ↦ rw (e, d) next
      ]
]
