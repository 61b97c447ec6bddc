-- ===== src/Bt/Decimal/RoundTrip.antt =====
-- A printed number is read back, and what the print looks like.
use bt_dht_crawler.Prelude.{
  ℕ, zero, suc, ◌+◌, ◌/◌, ◌%◌, ◌^◌, ◌≤◌, ◌<◌, ◌≡◌, ◌≢◌, refl, [], ◌∷◌, arith, Bytes, All, ◌==◌, ok,
  Bool-cases, inl, inr,
}
use bt_dht_crawler.Prelude.Int.{ℤ, pos, negsuc, IsInt64}
use bt_dht_crawler.Bt.Decimal.{
  digits, format, format_int, scan, parse_uint, parse_int, IsDigit, to_positive, to_negative,
}

digits-All : (f n : ℕ) (out : Bytes) → All IsDigit out → All IsDigit (digits f n out)
unfolding digits
digits-All zero n out h = h
digits-All (suc f) n out h = elim (Bool-cases (n == 0)) [
  | inl e ↦ rw e h
  | inr e ↦ rw e (digits-All f (n / 10) _ (omega arith, h))
]

pub format-All : (n : ℕ) → All IsDigit (format n)
unfolding format
format-All n = elim (Bool-cases (n == 0)) [
  | inl e ↦ rw e (omega arith)
  | inr e ↦ rw e (digits-All n n [] tt)
]

scan-digits : (f n : ℕ) (out : Bytes) → n ≤ f → n < 2 ^ 64 → scan (digits f n out) 0 ≡ scan out n
unfolding digits
scan-digits zero n out h lt = let e : n ≡ 0 = omega arith in rw e
scan-digits (suc f) n out h lt = elim (Bool-cases (n == 0)) [
  | inl e ↦ let z : n ≡ 0 = ground arith in rw z
  | inr e ↦
      let pos : n ≢ 0 = ground arith in
      rw (e, scan-digits f (n / 10) ((b'0' + n % 10) ∷ out) (omega arith) (omega arith))
        (unfold scan in ground arith)
]

parse_uint-scan : (s : Bytes) → s ≢ [] → parse_uint s ≡ scan s 0
unfolding parse_uint
parse_uint-scan [] h = absurd (h refl)
parse_uint-scan (c ∷ s) h = refl

digits-ne-nil : (f n : ℕ) (out : Bytes) → out ≢ [] → digits f n out ≢ []
unfolding digits
digits-ne-nil zero n out h = h
digits-ne-nil (suc f) n out h = elim (Bool-cases (n == 0)) [
  | inl e ↦ rw e h
  | inr e ↦ rw e (digits-ne-nil f (n / 10) _ (λ q. cc))
]

digits_pos : (f n : ℕ) → 0 < n → n ≤ f → digits f n [] ≢ []
unfolding digits
digits_pos zero n p h = absurd (omega arith)
digits_pos (suc f) n p h = elim (Bool-cases (n == 0)) [
  | inl e ↦ ground arith
  | inr e ↦ rw e (digits-ne-nil f (n / 10) _ (λ q. cc))
]

pub format-ne-nil : (n : ℕ) → format n ≢ []
unfolding format
format-ne-nil n = elim (Bool-cases (n == 0)) [
  | inl e ↦ rw e (λ q. cc)
  | inr e ↦ rw e (digits_pos n n (ground arith) (omega arith))
]

-- The first byte of a printed number is a digit.
pub format-cons : (n : ℕ) → (c : ℕ) × (s : Bytes) × (format n ≡ c ∷ s) × IsDigit c
format-cons n = split_first (format n) (format-ne-nil n) (format-All n)
  where
    split_first :
        (t : Bytes) → t ≢ [] → All IsDigit t → (c : ℕ) × (s : Bytes) × (t ≡ c ∷ s) × IsDigit c
    split_first [] h a = absurd (h refl)
    split_first (c ∷ s) h a = (c, s, refl, a.0)

pub parse_uint-format : (n : ℕ) → n < 2 ^ 64 → parse_uint (format n) ≡ ok n
parse_uint-format n h =
    rw (parse_uint-scan (format n) (format-ne-nil n))
      (unfold format scan in ground (arith, scan-digits n n [] (omega arith) h))

-- A printed natural number carries no sign.
parse_int_unsigned :
    (t : Bytes) (n : ℕ)
    → t ≢ []
    → All IsDigit t
    → parse_uint t ≡ ok n
    → n < 2 ^ 63
    → parse_int t ≡ ok (pos n)
unfolding parse_int to_positive
parse_int_unsigned [] n ne a h lt = absurd (ne refl)
parse_int_unsigned (c ∷ s) n ne a h lt = ground arith

pub parse_int-format : (n : ℕ) → n < 2 ^ 63 → parse_int (format n) ≡ ok (pos n)
parse_int-format n h =
    parse_int_unsigned (format n) n (format-ne-nil n) (format-All n)
      (parse_uint-format n (omega arith)) h

-- Every int64 is read back from its decimal print.
pub parse_int-format_int : (z : ℤ) → IsInt64 z → parse_int (format_int z) ≡ ok z
unfolding format_int
parse_int-format_int (pos n) h = parse_int-format n h
parse_int-format_int (negsuc n) h =
    unfold parse_int to_negative in ground (arith, parse_uint-format (suc n) (omega arith))
