-- ===== src/Dht/Id/Order.antt =====
-- `Less` is a strict total order on identifiers.
use bt_dht_crawler.Prelude.{◌≡◌, refl, true, false, [], ◌∷◌, arith}
use bt_dht_crawler.Prelude.Sort.{IsWeakOrder}
use bt_dht_crawler.Dht.Id.{NodeId, less}

less-asymm : (a b : NodeId) → less a b ≡ true → less b a ≡ false
unfolding less
less-asymm [] [] h = cc
less-asymm [] (y ∷ b) h = refl
less-asymm (x ∷ a) [] h = cc
less-asymm (x ∷ a) (y ∷ b) h = ground (arith, less-asymm a b)

less-weak_trans : (a b c : NodeId) → less b a ≡ false → less c b ≡ false → less c a ≡ false
unfolding less
less-weak_trans [] [] c h k = k
less-weak_trans [] (y ∷ b) [] h k = refl
less-weak_trans [] (y ∷ b) (z ∷ c) h k = refl
less-weak_trans (x ∷ a) [] c h k = cc
less-weak_trans (x ∷ a) (y ∷ b) [] h k = cc
less-weak_trans (x ∷ a) (y ∷ b) (z ∷ c) h k = ground (arith, less-weak_trans a b c)

less-total : (a b : NodeId) → less a b ≡ false → less b a ≡ false → a ≡ b
unfolding less
less-total [] [] h k = refl
less-total [] (y ∷ b) h k = cc
less-total (x ∷ a) [] h k = cc
less-total (x ∷ a) (y ∷ b) h k = ground (arith, less-total a b)

pub less-IsWeakOrder : IsWeakOrder less
less-IsWeakOrder = record { asymm = less-asymm; weak_trans = less-weak_trans }

-- `Less` is a strict total order: one of two identifiers is less, or they are equal; never are both
-- less; and what is not less passes on.
pub less_laws :
    (a b c : NodeId)
    → (less a b ≡ true → less b a ≡ false)
      × (less a b ≡ false → less b a ≡ false → a ≡ b)
      × (less b a ≡ false → less c b ≡ false → less c a ≡ false)
less_laws a b c = (less-asymm a b, less-total a b, less-weak_trans a b c)
