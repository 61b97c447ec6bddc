-- ===== src/Bt/Value.antt =====
-- The values that internal/bt/bencode.go passes around as `interface{}`, and Go maps of them.
use bt_dht_crawler.Prelude.{
  ℕ, ◌≡◌, refl, List, [], ◌∷◌, Bytes, bytes_eq, if◌then◌else◌, Option, none, some,
}
use bt_dht_crawler.Prelude.Int.{ℤ}

-- The dynamic types of the switch in `encode`. A map is the list of its entries, in no particular
-- order; each key stands there once (`assign` keeps it so).
mutual
  pub data Value : Type 0 where
    str bytes : Bytes → Value
    int int64 : ℤ → Value
    uint16 uint32 : ℕ → Value
    list : Items → Value
    dict : Dict → Value
    -- A value of any other type.
    other : Value

  pub data Items : Type 0 where
    nil : Items
    cons : Value → Items → Items

  pub data Dict : Type 0 where
    empty : Dict
    entry : Bytes → Value → Dict → Dict

-- `val, ok := dict[key]`
unfoldable pub lookup : Bytes → Dict → Option Value
lookup k empty = none
lookup k (entry j v d) = if bytes_eq j k then some v else lookup k d

-- `dict[key] = val`
unfoldable pub assign : Bytes → Value → Dict → Dict
assign k v empty = entry k v empty
assign k v (entry j w d) = if bytes_eq j k then entry j v d else entry j w (assign k v d)

-- `append(list, item)`
unfoldable pub push_back : Items → Value → Items
push_back nil v = cons v nil
push_back (cons x xs) v = cons x (push_back xs v)

unfoldable pub append_items : Items → Items → Items
append_items nil ys = ys
append_items (cons x xs) ys = cons x (append_items xs ys)

pub append_items-push_back :
    (xs : Items) (v : Value) (ys : Items)
    → append_items (push_back xs v) ys ≡ append_items xs (cons v ys)
unfolding append_items push_back
append_items-push_back nil v ys = refl
append_items-push_back (cons x xs) v ys = cc (append_items-push_back xs v ys)

pub append_items-nil : (xs : Items) → append_items xs nil ≡ xs
unfolding append_items
append_items-nil nil = refl
append_items-nil (cons x xs) = cc (append_items-nil xs)

unfoldable pub from_list : List (Bytes × Value) → Dict
from_list [] = empty
from_list ((k, v) ∷ ps) = entry k v (from_list ps)
