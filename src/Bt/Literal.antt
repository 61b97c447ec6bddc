-- ===== src/Bt/Literal.antt =====
-- Map literals: whether their keys differ is computed.
use bt_dht_crawler.Prelude.{
  ◌≤◌, ◌≡◌, Bool, true, not, ◌&&◌, List, [], ◌∷◌, Bytes, bytes_eq, eq→bytes_eq, length, All,
  Bool-cases, inl, inr, arith,
}
use bt_dht_crawler.Bt.Value.{Value, dict, from_list}
use bt_dht_crawler.Bt.Decode.{max_alloc}
use bt_dht_crawler.Bt.Received.{IsEncodable, HasEncodable, Lacks}

abbrev pub is_absent : Bytes → List (Bytes × Value) → Bool
is_absent k [] = true
is_absent k ((j, v) ∷ ps) = not (bytes_eq k j) && is_absent k ps

abbrev pub keys_differ : List (Bytes × Value) → Bool
keys_differ [] = true
keys_differ ((k, v) ∷ ps) = is_absent k ps && keys_differ ps

is_absent-Lacks :
    (k : Bytes) (ps : List (Bytes × Value)) → is_absent k ps ≡ true → Lacks k (from_list ps)
unfolding from_list
is_absent-Lacks k [] h = tt
is_absent-Lacks k ((j, v) ∷ ps) h = elim (Bool-cases (bytes_eq k j)) [
  | inl e ↦ absurd (ground arith)
  | inr e ↦ ((λ q. absurd (cc (e, eq→bytes_eq k j q))), is_absent-Lacks k ps (ground arith))
]

literal-HasEncodable :
    (ps : List (Bytes × Value))
    → All (λ p. (length p.0 ≤ max_alloc) × IsEncodable p.1) ps
    → keys_differ ps ≡ true
    → HasEncodable (from_list ps)
unfolding from_list
literal-HasEncodable [] h d = tt
literal-HasEncodable ((k, v) ∷ ps) h d = elim (Bool-cases (is_absent k ps)) [
  | inl e ↦ (h.0.0, h.0.1, is_absent-Lacks k ps e, literal-HasEncodable ps h.1 (ground arith))
  | inr e ↦ absurd (ground arith)
]

-- A literal with different keys and encodable values can be encoded.
pub literal-IsEncodable :
    (ps : List (Bytes × Value))
    → All (λ p. (length p.0 ≤ max_alloc) × IsEncodable p.1) ps
    → keys_differ ps ≡ true
    → IsEncodable (dict (from_list ps))
literal-IsEncodable ps h d = literal-HasEncodable ps h d
