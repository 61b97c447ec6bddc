-- ===== src/Dht/Token.antt =====
-- internal/dht/node.go: the tokens of `get_peers` and `announce_peer`.
pub mod Laws
use bt_dht_crawler.Prelude.{
  ℕ, zero, suc, ◌+◌, ◌-◌, ◌*◌, ◌^◌, ◌≤◌, ◌<◌, ◌≡◌, ◌≢◌, refl, sym, ap, ap₂, ◌∙◌, subst, Bool, true,
  false, not, ◌&&◌, ◌||◌, ◌/◌, ◌%◌, List, [], ◌∷◌, ◌++◌, append_assoc, append-nil, map, Bytes,
  codes, bytes_eq, bytes_eq→eq, eq→bytes_eq, bytes_eq_refl, Option-cases, length, length-append,
  take, drop, take-append, drop-append, All, All-append, Pairwise, Pairwise-middle, ltb, leb, ◌==◌,
  if◌then◌else◌, Outcome, ok, err, panic, Error, ◌>>=◌, Bool-cases, inl, inr, ◌⊎◌, arith, Option,
  none, some,
}
use Prim.Native.Nat.{bit_xor}
use bt_dht_crawler.Prelude.Lists.{get_or}
use bt_dht_crawler.Dht.Compact.{copy_into}

-- The loop over the secret and the address, at most four rounds.
unfoldable pub mask_loop : ℕ → ℕ → Bytes → Bytes → Bytes
mask_loop zero i secret ip = []
mask_loop (suc f) i [] ip = []
mask_loop (suc f) i (s ∷ ss) ip =
    bit_xor s (get_or ip (i % length ip) 0) ∷ mask_loop f (suc i) ss ip

-- `i % len(ip)` panics for an empty address.
unfoldable pub mask_secret : Bytes → Bytes → Outcome Bytes
unfolding mask_loop
mask_secret [] ip = ok []
mask_secret (s ∷ ss) [] = panic
mask_secret (s ∷ ss) (b ∷ bs) = ok (mask_loop 4 0 (s ∷ ss) (b ∷ bs))

-- `generateToken`: the masked bytes at the front of eight.
unfoldable pub generate_token : Bytes → Bytes → Outcome Bytes
generate_token secret ip = mask_secret secret ip >>= λ m. ok (copy_into 8 m)

-- The second loop writes over what the first one left.
unfoldable pub overwrite : Bytes → Bytes → Bytes
overwrite [] old = old
overwrite (b ∷ bs) [] = []
overwrite (b ∷ bs) (o ∷ old) = b ∷ overwrite bs old

-- `string(token) == string(expected[:len(token)])`: slicing above the capacity panics.
unfoldable pub matches_prefix : Bytes → Bytes → Outcome Bool
matches_prefix token expected =
    if ltb (length expected) (length token)
    then panic
    else ok (bytes_eq token (take (length token) expected))

-- The check against the last secret.
unfoldable pub second_try : Bytes → Bytes → Bytes → Bytes → Outcome Bool
second_try last_secret token ip expected =
    mask_secret last_secret ip >>= λ m. matches_prefix token (overwrite m expected)

-- `validateToken` with the current and the last secret.
unfoldable pub validate_token : Bytes → Bytes → Bytes → Bytes → Outcome Bool
validate_token secret last_secret token ip = generate_token secret ip >>= λ expected.
    matches_prefix token expected >>= λ first.
    if first then ok true else second_try last_secret token ip expected
