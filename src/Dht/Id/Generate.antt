-- ===== src/Dht/Id/Generate.antt =====
-- internal/dht/id.go: identifiers spread over the key space. The source of randomness is a parameter.
pub mod Spread
use bt_dht_crawler.Prelude.{
  ℕ, zero, suc, ◌+◌, ◌-◌, ◌*◌, ◌^◌, ◌≤◌, ◌<◌, ◌≡◌, ◌≢◌, refl, sym, ap, ap₂, ◌∙◌, subst, Bool, true,
  false, not, ◌&&◌, ◌||◌, ◌/◌, ◌%◌, List, [], ◌∷◌, ◌++◌, append_assoc, append-nil, map, Bytes,
  codes, bytes_eq, bytes_eq→eq, eq→bytes_eq, bytes_eq_refl, bytes_eq-same, times, Option-cases,
  length, length-append, take, drop, take-append, drop-append, All, All-append, Pairwise,
  Pairwise-middle, ltb, ltb→lt, leb, ◌==◌, if◌then◌else◌, Outcome, ok, err, panic, Error, ◌>>=◌,
  Bool-cases, inl, inr, ◌⊎◌, arith, Option, none, some,
}
use bt_dht_crawler.Prelude.Int.{ℤ, pos, negsuc}
use bt_dht_crawler.Dht.Id.{NodeId, id_length}

-- The `Bytes` of a number below 2^(8 k), padded with zeros at the front to `k` bytes.
unfoldable pub fill_bytes : ℕ → ℕ → Bytes
fill_bytes zero n = []
fill_bytes (suc k) n = fill_bytes k (n / 256) ++ (n % 256 ∷ [])

-- The loop: `random i piece` is what the call of `rand.Int` in round `i` returns.
unfoldable pub generate_loop : (ℕ → ℕ → Outcome ℕ) → ℕ → ℕ → ℕ → Outcome (List NodeId)
unfolding fill_bytes
generate_loop random zero i piece = ok []
generate_loop random (suc n) i piece = random i piece >>= λ offset.
    generate_loop random n (suc i) piece >>= λ ids.
    ok (fill_bytes id_length (piece * i + offset) ∷ ids)

-- `GenerateDistributedIDs`
unfoldable pub generate_distributed_ids : (ℕ → ℕ → Outcome ℕ) → ℤ → Outcome (List NodeId)
unfolding generate_loop
generate_distributed_ids random (negsuc n) = err Error.bad_count
generate_distributed_ids random (pos zero) = err Error.bad_count
generate_distributed_ids random (pos (suc n)) = generate_loop random (suc n) 0 (2 ^ 160 / suc n)
