-- ===== src/Bt/RoundTrip/Loops.antt =====
-- The loops of `decodeList` and `decodeDict` over texts that the decoder reads.
use bt_dht_crawler.Prelude.{
  ℕ, zero, suc, ◌+◌, ◌<◌, ◌≡◌, ◌≢◌, ap, List, [], ◌∷◌, ◌++◌, append_assoc, Bytes, length,
  length-append, All, ◌==◌, Outcome, ok, ◌>>=◌, Bool-cases, inl, inr, arith,
}
use mathlib.Core.Path.{◌≡⟨◌⟩◌, ◌∎}
use bt_dht_crawler.Bt.Value.{
  Value, Items, nil, cons, push_back, append_items, append_items-push_back, append_items-nil,
}
use bt_dht_crawler.Bt.Decode.{Decoder, decode_list, decode_fuel}

abbrev pub Starts : Bytes → Type 0
Starts [] = ⊥
Starts (c ∷ t) = c ≢ b'e'

-- The decoder reads the value from the text, whatever follows it, if the fuel exceeds its length.
pub record Reads (text : Bytes) (value : Value) : Type 0 where
  pub starts : Starts text
  pub reads :
      (f : ℕ) (rest : Bytes) → length text < f → decode_fuel f (text ++ rest) ≡ ok (value, rest)

pub record Piece : Type 0 where
  pub text : Bytes
  pub value : Value

unfoldable pub texts : List Piece → Bytes
texts [] = []
texts (p ∷ ps) = p.text ++ texts ps

unfoldable pub values : List Piece → Items
values [] = nil
values (p ∷ ps) = cons p.value (values ps)

texts-cons :
    (p : Piece) (ps : List Piece) (s : Bytes) → texts (p ∷ ps) ++ s ≡ p.text ++ (texts ps ++ s)
unfolding texts
texts-cons p ps s = append_assoc p.text (texts ps) s

list_step :
    (dec : Decoder) (k : ℕ) (bs s : Bytes) (acc : Items)
    → Starts bs
    → decode_list dec (suc k) (bs ++ s) acc
      ≡ (dec (bs ++ s) >>= λ p. decode_list dec k p.1 (push_back acc p.0))
unfolding decode_list
list_step dec k [] s acc h = absurd h
list_step dec k (b ∷ r) s acc h = elim (Bool-cases (b == b'e')) [
  | inl e ↦ absurd (h (ground arith))
  | inr e ↦ rw e
]

pub Starts-pos : (bs : Bytes) → Starts bs → 0 < length bs
Starts-pos [] h = absurd h
Starts-pos (b ∷ r) h = omega arith

pub decode_list-texts :
    (ps : List Piece) (f k : ℕ) (acc : Items) (rest : Bytes)
    → All (λ p. Reads p.text p.value) ps
    → length (texts ps) < f
    → length (texts ps) < k
    → decode_list (decode_fuel f) k (texts ps ++ (b'e' ∷ rest)) acc
      ≡ ok (append_items acc (values ps), rest)
unfolding values
decode_list-texts ps f zero acc rest h lf lk = absurd (omega arith)
decode_list-texts [] f (suc k) acc rest h lf lk =
    unfold texts decode_list in rw (append_items-nil acc)
decode_list-texts (p ∷ ps) f (suc k) acc rest h lf lk =
    let lens : length (texts (p ∷ ps)) ≡ length p.text + length (texts ps) =
      unfold texts in length-append p.text (texts ps) in
    let s = texts ps ++ (b'e' ∷ rest) in
    let next : Value × Bytes → Outcome (Items × Bytes) =
      λ q. decode_list (decode_fuel f) k q.1 (push_back acc q.0) in
    decode_list (decode_fuel f) (suc k) (texts (p ∷ ps) ++ (b'e' ∷ rest)) acc
    ≡⟨ ap (λ t. decode_list (decode_fuel f) (suc k) t acc) (texts-cons p ps (b'e' ∷ rest)) ⟩
      decode_list (decode_fuel f) (suc k) (p.text ++ s) acc
    ≡⟨ list_step (decode_fuel f) k p.text s acc h.0.starts ⟩ (decode_fuel f (p.text ++ s) >>= next)
    ≡⟨ ap (λ m. m >>= next) (h.0.reads f s (omega arith)) ⟩
      decode_list (decode_fuel f) k s (push_back acc p.value)
    ≡⟨ decode_list-texts ps f k (push_back acc p.value) rest h.1 (omega arith)
        (omega (arith, Starts-pos p.text h.0.starts)) ⟩
      ok (append_items (push_back acc p.value) (values ps), rest)
    ≡⟨ ap (λ t. ok (t, rest)) (append_items-push_back acc p.value (values ps)) ⟩
      ok (append_items acc (cons p.value (values ps)), rest) ∎
