-- ===== src/Dht/Routing/Closest.antt =====
-- `FindClosest` returns the nodes that are nearest to the target.
use bt_dht_crawler.Prelude.{
  min, ℕ, zero, suc, ◌*◌, ◌^◌, ◌<◌, Bytes, true, false, Pairwise, All, ltb→lt, not_ltb→le, ◌∙◌, ◌≤◌,
  ◌≡◌, refl, sym, ap, List, [], ◌∷◌, ◌++◌, length, take, drop, ltb, if◌then◌else◌, Bool-cases, inl,
  inr, arith,
}
use mathlib.Core.List.{Perm}
use bt_dht_crawler.Prelude.Lists.{take-append-drop, length-take}
use bt_dht_crawler.Prelude.Sort.{
  sort_by, sort_by-All, IsSorted, IsWeakOrder, sort_by-perm, sort_by-IsSorted, length-sort_by,
}
use native.Mathlib.Nat.{mul-le-mul_right}
use bt_dht_crawler.Dht.Id.{NodeId, IsNodeId, less, distance}
use bt_dht_crawler.Dht.Id.Bucket.{value, value-lt}
use bt_dht_crawler.Dht.Id.Distance.{distance-IsNodeId}
use bt_dht_crawler.Dht.Id.Order.{less-IsWeakOrder}
use bt_dht_crawler.Dht.Routing.{
  RoutingNode, RoutingTable, closer, find_closest, get_all_nodes, all_nodes,
}

closer-IsWeakOrder : (target : NodeId) → IsWeakOrder (closer target)
closer-IsWeakOrder target = record {
  asymm = λ a b. less-IsWeakOrder.asymm (distance a.id target) (distance b.id target);
  weak_trans = λ a b c.
      less-IsWeakOrder.weak_trans (distance a.id target) (distance b.id target)
        (distance c.id target);
}

take_if :
    {A : Type 0} (n : ℕ) (xs : List A) → (if ltb n (length xs) then take n xs else xs) ≡ take n xs
take_if n xs = elim (Bool-cases (ltb n (length xs))) [
  | inl e ↦ rw e
  | inr e ↦ rw e (sym (take_all n xs (ground arith)))
]
  where
    take_all : {B : Type 0} (m : ℕ) (ys : List B) → length ys ≤ m → take m ys ≡ ys
    take_all zero [] h = refl
    take_all zero (y ∷ ys) h = absurd (omega arith)
    take_all (suc m) [] h = refl
    take_all (suc m) (y ∷ ys) h = ap (◌∷◌ y) (take_all m ys (omega arith))

-- Of two arrays of one size, the one that is not less is not the smaller number.
value-less :
    (a b : Bytes)
    → length a ≡ length b
    → All (λ x. x < 256) a
    → All (λ x. x < 256) b
    → less b a ≡ false
    → value a ≤ value b
unfolding less value
value-less [] [] s f g h = omega arith
value-less [] (y ∷ b) s f g h = absurd (omega arith)
value-less (x ∷ a) [] s f g h = absurd (omega arith)
value-less (x ∷ a) (y ∷ b) s f g h =
    let same : length a ≡ length b = omega arith in
    elim (Bool-cases (ltb y x)) [
      | inl e ↦ let clash : true ≡ false = rw e at h in cc
      | inr e ↦ elim (Bool-cases (ltb x y)) [
        | inl d ↦
            let step : suc x * 2 ^ (8 * length a) ≤ y * 2 ^ (8 * length a) =
              mul-le-mul_right (2 ^ (8 * length a)) (ltb→lt x y d) in
            let small : value a < 2 ^ (8 * length a) = value-lt a f.1 in rw⁻¹ same (omega arith)
        | inr d ↦
            let equal : x ≡ y = omega (arith, not_ltb→le y x e, not_ltb→le x y d) in
            let rest : less b a ≡ false = rw (e, d) at h in
            let le : value a ≤ value b = value-less a b same f.1 g.1 rest in
            rw (equal, same) (omega (arith, le))
      ]
    ]

-- The XOR distance to the target, as a number.
abbrev pub distance_to : NodeId → RoutingNode → ℕ
distance_to target n = value (distance n.id target)

abbrev HasNodeId : RoutingNode → Type 0
HasNodeId n = IsNodeId n.id

closer-All :
    (target : NodeId) (x : RoutingNode) (ns : List RoutingNode)
    → IsNodeId target
    → IsNodeId x.id
    → All HasNodeId ns
    → All (λ y. closer target y x ≡ false) ns
    → All (λ y. distance_to target x ≤ distance_to target y) ns
closer-All target x [] g i h s = tt
closer-All target x (y ∷ ns) g i h s =
    let p = distance-IsNodeId x.id target i g in
    let q = distance-IsNodeId y.id target h.0 g in
    (
      value-less (distance x.id target) (distance y.id target) (p.size ∙ sym q.size) p.in_range
          q.in_range s.0,
      closer-All target x ns g i h.1 s.1,
    )

sorted-Pairwise :
    (target : NodeId) (ns : List RoutingNode)
    → IsNodeId target
    → All HasNodeId ns
    → IsSorted (closer target) ns
    → Pairwise (λ x y. distance_to target x ≤ distance_to target y) ns
sorted-Pairwise target [] g h s = tt
sorted-Pairwise target (x ∷ ns) g h s =
    (closer-All target x ns g h.0 h.1 s.0, sorted-Pairwise target ns g h.1 s.1)

-- `result` are the nodes of the table nearest to the target, nearest first, and `rest` the others: no node is
-- farther than one behind it, in the result or in the rest, by the XOR distance read as a number.
pub record IsClosest (target : NodeId) (count : ℕ) (t : RoutingTable)
    (result rest : List RoutingNode) : Type 0 where
  pub complete : Perm (result ++ rest) (get_all_nodes t)
  pub sorted : Pairwise (λ x y. distance_to target x ≤ distance_to target y) (result ++ rest)
  pub size : length result ≡ min count (length (get_all_nodes t))

pub length-find_closest :
    (target : NodeId) (count : ℕ) (t : RoutingTable)
    → length (find_closest target count t) ≡ min count (length (get_all_nodes t))
unfolding find_closest get_all_nodes
length-find_closest target count t =
    rw (take_if count (sort_by (closer target) (all_nodes t.buckets))) (
      omega (
        arith,
        length-take count (sort_by (closer target) (all_nodes t.buckets)),
        length-sort_by (closer target) (all_nodes t.buckets),
      ))

-- If the target and the identifiers of the table have 20 bytes each, `FindClosest` returns nodes of the table, as
-- many as asked for or all there are, in the order of their XOR distance to the target, read as a number; and none
-- of those left out is nearer than one returned.
pub find_closest-IsClosest :
    (target : NodeId) (count : ℕ) (t : RoutingTable)
    → IsNodeId target
    → All (λ n. IsNodeId n.id) (get_all_nodes t)
    → (rest : List RoutingNode) × IsClosest target count t (find_closest target count t) rest
find_closest-IsClosest target count t g h = (
  drop count sorted,
  record {
    complete =
        unfold find_closest in
        rw (take_if count sorted, take-append-drop count sorted)
          (unfold get_all_nodes in sort_by-perm (closer target) (all_nodes t.buckets));
    sorted =
        unfold find_closest in
        rw (take_if count sorted, take-append-drop count sorted)
          (sorted-Pairwise target sorted g
            (sort_by-All (closer target) HasNodeId (all_nodes t.buckets)
              (unfold get_all_nodes in h))
            (sort_by-IsSorted (closer target) (closer-IsWeakOrder target) (all_nodes t.buckets)));
    size = length-find_closest target count t;
  },
)
  where
    sorted : List RoutingNode
    sorted = sort_by (closer target) (all_nodes t.buckets)
