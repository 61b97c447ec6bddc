-- ===== src/Dht/Routing/Loops.antt =====
-- The loops over one bucket.
use bt_dht_crawler.Prelude.{
  suc, ◌≤◌, ◌≡◌, ◌≢◌, sym, ◌∙◌, [], ◌∷◌, bytes_eq, bytes_eq→eq, eq→bytes_eq, length, All, Pairwise,
  Bool-cases, inl, inr, arith, Option, none, some,
}
use bt_dht_crawler.Dht.Id.{NodeId}
use bt_dht_crawler.Dht.Routing.{RoutingNode, Bucket, find, without}

-- The result of a loop that may give up.
abbrev pub Holds : {A : Type 0} → (A → Type 0) → Option A → Type 0
Holds P none = Unit {0}
Holds P (some b) = P b

abbrev pub ApartNodes : RoutingNode → RoutingNode → Type 0
ApartNodes a b = a.id ≢ b.id

abbrev pub Without : NodeId → Bucket → Type 0
Without id = All (λ n. n.id ≢ id)

pub find-id : (id : NodeId) (b : Bucket) (n : RoutingNode) → find id b ≡ some n → n.id ≡ id
unfolding find
find-id id [] n h = cc
find-id id (m ∷ b) n h = elim (Bool-cases (bytes_eq m.id id)) [
  | inl e ↦
      let s : some m ≡ some n = ground arith in
      let t : m ≡ n = cc in rw (← t) (bytes_eq→eq m.id id e)
  | inr e ↦ find-id id b n (ground arith)
]

pub find-none-Without : (id : NodeId) (b : Bucket) → find id b ≡ none → Without id b
unfolding find
find-none-Without id [] h = tt
find-none-Without id (m ∷ b) h = elim (Bool-cases (bytes_eq m.id id)) [
  | inl e ↦ absurd (ground arith)
  | inr e ↦ (λ q. absurd (cc (e, eq→bytes_eq m.id id q)), find-none-Without id b (ground arith))
]

pub without-All :
    (P : RoutingNode → Type 0) (id : NodeId) (b : Bucket) → All P b → All P (without id b)
unfolding without
without-All P id [] h = tt
without-All P id (m ∷ b) h = elim (Bool-cases (bytes_eq m.id id)) [
  | inl e ↦ rw e h.1
  | inr e ↦ rw e (h.0, without-All P id b h.1)
]

pub without-Pairwise :
    (id : NodeId) (b : Bucket) → Pairwise ApartNodes b → Pairwise ApartNodes (without id b)
unfolding without
without-Pairwise id [] h = tt
without-Pairwise id (m ∷ b) h = elim (Bool-cases (bytes_eq m.id id)) [
  | inl e ↦ rw e h.1
  | inr e ↦ rw e (without-All (ApartNodes m) id b h.0, without-Pairwise id b h.1)
]

-- Where no two nodes share an identifier, one removal leaves none of it.
pub without-Without : (id : NodeId) (b : Bucket) → Pairwise ApartNodes b → Without id (without id b)
unfolding without
without-Without id [] h = tt
without-Without id (m ∷ b) h = elim (Bool-cases (bytes_eq m.id id)) [
  | inl e ↦ rw e (flip b h.0 (bytes_eq→eq m.id id e))
  | inr e ↦ rw e ((λ q. absurd (cc (e, eq→bytes_eq m.id id q))), without-Without id b h.1)
]
  where
    flip : (ns : Bucket) → All (ApartNodes m) ns → m.id ≡ id → Without id ns
    flip [] a e = tt
    flip (n ∷ ns) a e = ((λ q. a.0 (e ∙ sym q)), flip ns a.1 e)

pub length-without : (id : NodeId) (b : Bucket) → length (without id b) ≤ length b
unfolding without
length-without id [] = omega arith
length-without id (m ∷ b) = ground (arith, length-without id b)

pub length-without_found :
    (id : NodeId) (b : Bucket) (n : RoutingNode)
    → find id b ≡ some n
    → suc (length (without id b)) ≡ length b
unfolding find without
length-without_found id [] n h = cc
length-without_found id (m ∷ b) n h = ground (arith, length-without_found id b n)

pub find-All :
    (P : RoutingNode → Type 0) (id : NodeId) (b : Bucket) (n : RoutingNode)
    → All P b
    → find id b ≡ some n
    → P n
unfolding find
find-All P id [] n h e = cc
find-All P id (m ∷ b) n h e = elim (Bool-cases (bytes_eq m.id id)) [
  | inl c ↦ let s : some m ≡ some n = ground arith in let t : m ≡ n = cc in rw (← t) h.0
  | inr c ↦ find-All P id b n h.1 (ground arith)
]
