-- ===== src/Bt/Decimal.antt =====
-- What internal/bt/bencode.go uses of fmt ("%d") and of strconv (ParseInt and Atoi at base 10).
pub mod RoundTrip
pub mod Total
use bt_dht_crawler.Prelude.{
  ℕ, zero, suc, ◌+◌, ◌-◌, ◌*◌, ◌/◌, ◌%◌, ◌^◌, ◌≤◌, ◌<◌, ◌≡◌, ◌≢◌, refl, Bool, true, false, ◌||◌,
  ◌&&◌, List, [], ◌∷◌, ◌++◌, arith, Bytes, codes, All, All-append, ltb, leb, ◌==◌, if◌then◌else◌,
  Outcome, ok, err, panic, Error, ◌>>=◌, Bool-cases, inl, inr, length,
}
use bt_dht_crawler.Prelude.Int.{ℤ, pos, negsuc, neg, IsInt64}

-- Most significant digit first; `n` rounds are enough, since each divides `n` by ten.
unfoldable pub digits : ℕ → ℕ → Bytes → Bytes
digits zero n out = out
digits (suc f) n out =
    let rest = digits f (n / 10) ((b'0' + n % 10) ∷ out) in if n == 0 then out else rest

unfoldable pub format : ℕ → Bytes
unfolding digits
format n = if n == 0 then b'0' ∷ [] else digits n n []

unfoldable pub format_int : ℤ → Bytes
unfolding format
format_int (pos n) = format n
format_int (negsuc n) = b'-' ∷ format (suc n)

abbrev pub is_digit : ℕ → Bool
is_digit c = leb b'0' c && leb c b'9'

-- The loop of `strconv.ParseUint` at base 10 and 64 bits.
unfoldable pub scan : Bytes → ℕ → Outcome ℕ
scan [] n = ok n
scan (c ∷ s) n =
    let d = c - b'0' in
    if is_digit c
    then (if leb (2 ^ 64) (n * 10 + d) then err Error.out_of_range else scan s (n * 10 + d))
    else err Error.bad_syntax

unfoldable pub parse_uint : Bytes → Outcome ℕ
unfolding scan
parse_uint [] = err Error.bad_syntax
parse_uint (c ∷ s) = scan (c ∷ s) 0

to_positive : ℕ → Outcome ℤ
to_positive n = if leb (2 ^ 63) n then err Error.out_of_range else ok (pos n)

to_negative : ℕ → Outcome ℤ
to_negative n = if ltb (2 ^ 63) n then err Error.out_of_range else ok (neg n)

-- `strconv.ParseInt(s, 10, 64)`; `strconv.Atoi` agrees with it where `int` has 64 bits.
unfoldable pub parse_int : Bytes → Outcome ℤ
unfolding parse_uint to_positive to_negative
parse_int [] = err Error.bad_syntax
parse_int (c ∷ s) =
    if c == b'-'
    then parse_uint s >>= to_negative
    else if c == b'+'
    then parse_uint s >>= to_positive
    else parse_uint (c ∷ s) >>= to_positive

abbrev pub IsDigit : ℕ → Type 0
IsDigit c = (b'0' ≤ c) × (c ≤ b'9')
