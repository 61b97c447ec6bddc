-- ===== src/Dht/Routing/Stale.antt =====
-- A node behind a bucket, and the loop of `Insert` that replaces a stale node.
use bt_dht_crawler.Prelude.{
  ℕ, suc, ◌≡◌, refl, sym, ap, [], ◌∷◌, ◌++◌, length, All, All-append, Pairwise, Bool-cases, inl,
  inr, Option, none, some,
}
use bt_dht_crawler.Dht.Routing.{RoutingNode, Bucket, is_stale, replace_stale}
use bt_dht_crawler.Dht.Routing.Loops.{Holds, ApartNodes, Without}

-- The node that comes last.
pub All-last :
    (P : RoutingNode → Type 0) (b : Bucket) (n : RoutingNode)
    → All P b
    → P n
    → All P (b ++ (n ∷ []))
All-last P b n h p = All-append P b (n ∷ []) h (p, tt)

pub Pairwise-last :
    (b : Bucket) (n : RoutingNode)
    → Pairwise ApartNodes b
    → Without n.id b
    → Pairwise ApartNodes (b ++ (n ∷ []))
Pairwise-last [] n h w = (tt, tt)
Pairwise-last (m ∷ b) n h w = (All-last (ApartNodes m) b n h.0 w.0, Pairwise-last b n h.1 w.1)

-- The loop over stale nodes.
pub replace_stale-All :
    (P : RoutingNode → Type 0) (now : ℕ) (fresh : RoutingNode) (b : Bucket)
    → All P b
    → P fresh
    → Holds (All P) (replace_stale now fresh b)
unfolding replace_stale
replace_stale-All P now fresh [] h p = tt
replace_stale-All P now fresh (n ∷ b) h p = elim (Bool-cases (is_stale now n)) [
  | inl e ↦ rw e (p, h.1)
  | inr e ↦ rw e (keep (replace_stale now fresh b) (replace_stale-All P now fresh b h.1 p))
]
  where
    keep :
        (r : Option Bucket)
        → Holds (All P) r
        → Holds (All P) (elim r [ none ↦ none | some ms ↦ some (n ∷ ms) ])
    keep none k = tt
    keep (some ms) k = (h.0, k)

pub replace_stale-size :
    (now : ℕ) (fresh : RoutingNode) (b : Bucket)
    → Holds (λ c. length c ≡ length b) (replace_stale now fresh b)
unfolding replace_stale
replace_stale-size now fresh [] = tt
replace_stale-size now fresh (n ∷ b) = elim (Bool-cases (is_stale now n)) [
  | inl e ↦ rw e refl
  | inr e ↦ rw e (keep (replace_stale now fresh b) (replace_stale-size now fresh b))
]
  where
    keep :
        (r : Option Bucket)
        → Holds (λ c. length c ≡ length b) r
        → Holds (λ c. length c ≡ suc (length b)) (elim r [ none ↦ none | some ms ↦ some (n ∷ ms) ])
    keep none k = tt
    keep (some ms) k = ap suc k

pub replace_stale-apart :
    (now : ℕ) (fresh : RoutingNode) (b : Bucket)
    → Pairwise ApartNodes b
    → Without fresh.id b
    → Holds (Pairwise ApartNodes) (replace_stale now fresh b)
unfolding replace_stale
replace_stale-apart now fresh [] h w = tt
replace_stale-apart now fresh (n ∷ b) h w = elim (Bool-cases (is_stale now n)) [
  | inl e ↦ rw e (flip b w.1, h.1)
  | inr e ↦ rw e (
      keep (replace_stale now fresh b) (replace_stale-All (ApartNodes n) now fresh b h.0 w.0)
        (replace_stale-apart now fresh b h.1 w.1))
]
  where
    flip : (c : Bucket) → Without fresh.id c → All (ApartNodes fresh) c
    flip [] k = tt
    flip (m ∷ c) k = ((λ q. k.0 (sym q)), flip c k.1)

    keep :
        (r : Option Bucket)
        → Holds (All (ApartNodes n)) r
        → Holds (Pairwise ApartNodes) r
        → Holds (Pairwise ApartNodes) (elim r [ none ↦ none | some ms ↦ some (n ∷ ms) ])
    keep none a k = tt
    keep (some ms) a k = (a, k)
