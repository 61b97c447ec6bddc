-- ===== src/Dht/Id/Distance.antt =====
-- The XOR distance.
use bt_dht_crawler.Prelude.{
  ℕ, suc, ◌<◌, ◌≡◌, refl, sym, ap, ap₂, ◌∙◌, true, [], ◌∷◌, Bytes, length, All, arith,
}
use bt_dht_crawler.Prelude.Bits.{bit_xor_self, bit_xor_comm, bit_xor_cancel, bit_xor-lt}
use bt_dht_crawler.Dht.Id.{NodeId, IsNodeId, distance, is_zero}

distance_self_zero : (a : NodeId) → is_zero (distance a a) ≡ true
unfolding distance is_zero
distance_self_zero [] = refl
distance_self_zero (x ∷ a) = rw (bit_xor_self x) (distance_self_zero a)

distance_comm : (a b : NodeId) → distance a b ≡ distance b a
unfolding distance
distance_comm [] [] = refl
distance_comm [] (y ∷ b) = refl
distance_comm (x ∷ a) [] = refl
distance_comm (x ∷ a) (y ∷ b) = ap₂ ◌∷◌ (bit_xor_comm x y) (distance_comm a b)

abbrev head_or : Bytes → ℕ
head_or [] = 0
head_or (x ∷ xs) = x

abbrev tail_of : Bytes → Bytes
tail_of [] = []
tail_of (x ∷ xs) = xs

distance_cancel :
    (a b c : NodeId)
    → length b ≡ length a
    → length c ≡ length a
    → distance a b ≡ distance a c
    → b ≡ c
unfolding distance
distance_cancel [] [] [] p q e = refl
distance_cancel [] [] (z ∷ c) p q e = absurd (omega arith)
distance_cancel [] (y ∷ b) c p q e = absurd (omega arith)
distance_cancel (x ∷ a) [] c p q e = absurd (omega arith)
distance_cancel (x ∷ a) (y ∷ b) [] p q e = absurd (omega arith)
distance_cancel (x ∷ a) (y ∷ b) (z ∷ c) p q e =
    ap₂ ◌∷◌ (bit_xor_cancel x y z (ap head_or e))
      (distance_cancel a b c (omega arith) (omega arith) (ap tail_of e))

length-distance : (a b : NodeId) → length a ≡ length b → length (distance a b) ≡ length a
unfolding distance
length-distance [] b e = refl
length-distance (x ∷ a) [] e = absurd (omega arith)
length-distance (x ∷ a) (y ∷ b) e = ap suc (length-distance a b (omega arith))

distance-bytes :
    (a b : NodeId) → All (λ x. x < 256) a → All (λ x. x < 256) b → All (λ x. x < 256) (distance a b)
unfolding distance
distance-bytes [] b h k = tt
distance-bytes (x ∷ a) [] h k = tt
distance-bytes (x ∷ a) (y ∷ b) h k = (bit_xor-lt 8 x y h.0 k.0, distance-bytes a b h.1 k.1)

-- The distance of two identifiers is one again.
pub distance-IsNodeId : (a b : NodeId) → IsNodeId a → IsNodeId b → IsNodeId (distance a b)
distance-IsNodeId a b ha hb = record {
  size = length-distance a b (ha.size ∙ sym hb.size) ∙ ha.size;
  in_range = distance-bytes a b ha.in_range hb.in_range;
}

-- Of identifiers of 20 bytes the XOR distance is zero from one to itself and symmetric, and for
-- each distance from an identifier there is one other at most.
pub distance_laws :
    (a b c : NodeId)
    → IsNodeId a
    → IsNodeId b
    → IsNodeId c
    → (is_zero (distance a a) ≡ true)
      × (distance a b ≡ distance b a)
      × (distance a b ≡ distance a c → b ≡ c)
distance_laws a b c ha hb hc = (
  distance_self_zero a,
  distance_comm a b,
  distance_cancel a b c (hb.size ∙ sym ha.size) (hc.size ∙ sym ha.size),
)
