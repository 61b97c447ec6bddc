-- ===== src/Bt/Access.antt =====
-- internal/bt/bencode.go: the helpers that take values out of a decoded dictionary.
use bt_dht_crawler.Prelude.{Bytes, Option, none, some}
use bt_dht_crawler.Prelude.Int.{ℤ}
use bt_dht_crawler.Bt.Value.{Value, Items, Dict, str, bytes, int, int64, list, dict, lookup}

abbrev as_bytes : Value → Option Bytes
as_bytes (bytes s) = some s
as_bytes (str s) = some s
as_bytes _ = none

abbrev as_int : Value → Option ℤ
as_int (int64 z) = some z
as_int (int z) = some z
as_int _ = none

abbrev as_dict : Value → Option Dict
as_dict (dict d) = some d
as_dict _ = none

abbrev as_list : Value → Option Items
as_list (list xs) = some xs
as_list _ = none

abbrev and_then : {A : Type 0} → Option Value → (Value → Option A) → Option A
and_then none f = none
and_then (some v) f = f v

-- `(v, true)` is `some v`, and `(_, false)` is `none`.
unfoldable pub get_string : Dict → Bytes → Option Bytes
unfolding lookup
get_string d k = and_then (lookup k d) as_bytes

unfoldable pub get_bytes : Dict → Bytes → Option Bytes
unfolding lookup
get_bytes d k = and_then (lookup k d) as_bytes

unfoldable pub get_int : Dict → Bytes → Option ℤ
unfolding lookup
get_int d k = and_then (lookup k d) as_int

unfoldable pub get_dict : Dict → Bytes → Option Dict
unfolding lookup
get_dict d k = and_then (lookup k d) as_dict

unfoldable pub get_list : Dict → Bytes → Option Items
unfolding lookup
get_list d k = and_then (lookup k d) as_list
