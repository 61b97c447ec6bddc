-- ===== src/Bt/Decimal/Total.antt =====
-- Reading a number uses no fuel.
use bt_dht_crawler.Prelude.{
  ℕ, ◌+◌, ◌-◌, ◌*◌, ◌^◌, Bool-cases, inl, inr, [], ◌∷◌, Bytes, leb, ltb, ◌==◌, ◌>>=◌, Ends,
  Ends-bind, Always,
}
use bt_dht_crawler.Bt.Decimal.{scan, parse_uint, parse_int, is_digit, to_positive, to_negative}

scan-Ends : (s : Bytes) (n : ℕ) → Ends Always (scan s n)
unfolding scan
scan-Ends [] n = tt
scan-Ends (c ∷ s) n = elim (Bool-cases (is_digit c)) [
  | inl d ↦ rw d (elim (Bool-cases (leb (2 ^ 64) (n * 10 + (c - b'0')))) [
    | inl e ↦ rw e tt
    | inr e ↦ rw e (scan-Ends s (n * 10 + (c - b'0')))
  ])
  | inr d ↦ rw d tt
]

parse_uint-Ends : (s : Bytes) → Ends Always (parse_uint s)
unfolding parse_uint
parse_uint-Ends [] = tt
parse_uint-Ends (c ∷ s) = scan-Ends (c ∷ s) 0

to_positive-Ends : (n : ℕ) → Ends Always (to_positive n)
unfolding to_positive
to_positive-Ends n = elim (Bool-cases (leb (2 ^ 63) n)) [ inl e ↦ rw e tt | inr e ↦ rw e tt ]

to_negative-Ends : (n : ℕ) → Ends Always (to_negative n)
unfolding to_negative
to_negative-Ends n = elim (Bool-cases (ltb (2 ^ 63) n)) [ inl e ↦ rw e tt | inr e ↦ rw e tt ]

signed : (s : Bytes) → Ends Always (parse_uint s >>= to_positive)
signed s =
    Ends-bind Always Always (parse_uint s) to_positive (parse_uint-Ends s)
      (λ n _. to_positive-Ends n)

pub parse_int-Ends : (s : Bytes) → Ends Always (parse_int s)
unfolding parse_int
parse_int-Ends [] = tt
parse_int-Ends (c ∷ s) = elim (Bool-cases (c == b'-')) [
  | inl e ↦ rw e (
      Ends-bind Always Always (parse_uint s) to_negative (parse_uint-Ends s)
        (λ n _. to_negative-Ends n))
  | inr e ↦
      rw e
        (elim (Bool-cases (c == b'+')) [ inl p ↦ rw p (signed s) | inr p ↦ rw p (signed (c ∷ s)) ])
]
