-- ===== src/Dht/Token/Laws.antt =====
-- Which tokens are accepted.
use bt_dht_crawler.Prelude.{
  ℕ, zero, suc, ◌≤◌, ◌<◌, ◌≡◌, ◌≢◌, refl, sym, ap, ◌∙◌, true, [], ◌∷◌, Bytes, bytes_eq_refl, length,
  take, if◌then◌else◌, ok, panic, ◌>>=◌, arith,
}
use bt_dht_crawler.Dht.Compact.{copy_into}
use bt_dht_crawler.Dht.Token.{
  mask_loop, mask_secret, generate_token, overwrite, matches_prefix, second_try, validate_token,
}

length-copy_into : (n : ℕ) (bs : Bytes) → length (copy_into n bs) ≡ n
unfolding copy_into
length-copy_into zero bs = refl
length-copy_into (suc n) [] = ap suc (length-copy_into n [])
length-copy_into (suc n) (b ∷ bs) = ap suc (length-copy_into n bs)

take_whole : (bs : Bytes) → take (length bs) bs ≡ bs
take_whole [] = refl
take_whole (b ∷ bs) = ap (◌∷◌ b) (take_whole bs)

mask_secret-ok : (secret ip : Bytes) → ip ≢ [] → (m : Bytes) × (mask_secret secret ip ≡ ok m)
unfolding mask_secret
mask_secret-ok [] ip h = ([], refl)
mask_secret-ok (s ∷ ss) [] h = absurd (h refl)
mask_secret-ok (s ∷ ss) (b ∷ bs) h = (_, refl)

matches_whole : (t : Bytes) → matches_prefix t t ≡ ok true
unfolding matches_prefix
matches_whole t = ground (arith, take_whole t, bytes_eq_refl t)

-- What `generateToken` makes for an address, `validateToken` accepts from it.
validate_token_now :
    (secret last_secret ip token : Bytes)
    → generate_token secret ip ≡ ok token
    → validate_token secret last_secret token ip ≡ ok true
unfolding validate_token
validate_token_now secret last_secret ip token g = rw (g, matches_whole token)

length-mask_loop :
    (f i j : ℕ) (s t ip : Bytes)
    → length s ≡ length t
    → length (mask_loop f i s ip) ≡ length (mask_loop f j t ip)
unfolding mask_loop
length-mask_loop zero i j s t ip e = refl
length-mask_loop (suc f) i j [] [] ip e = refl
length-mask_loop (suc f) i j [] (b ∷ t) ip e = absurd (omega arith)
length-mask_loop (suc f) i j (a ∷ s) [] ip e = absurd (omega arith)
length-mask_loop (suc f) i j (a ∷ s) (b ∷ t) ip e =
    ap suc (length-mask_loop f (suc i) (suc j) s t ip (omega arith))

overwrite-copy_into :
    (n : ℕ) (m m' : Bytes) → length m ≡ length m' → overwrite m (copy_into n m') ≡ copy_into n m
unfolding overwrite copy_into
overwrite-copy_into zero [] m' e = refl
overwrite-copy_into zero (b ∷ m) m' e = refl
overwrite-copy_into (suc n) [] [] e = refl
overwrite-copy_into (suc n) [] (c ∷ m') e = absurd (omega arith)
overwrite-copy_into (suc n) (b ∷ m) [] e = absurd (omega arith)
overwrite-copy_into (suc n) (b ∷ m) (c ∷ m') e =
    ap (◌∷◌ b) (overwrite-copy_into n m m' (omega arith))

mask_secret_size :
    (s t ip m m' : Bytes)
    → length s ≡ length t
    → mask_secret s ip ≡ ok m
    → mask_secret t ip ≡ ok m'
    → length m ≡ length m'
unfolding mask_secret
mask_secret_size [] [] ip m m' e p q = ground arith
mask_secret_size [] (b ∷ t) ip m m' e p q = absurd (omega arith)
mask_secret_size (a ∷ s) [] ip m m' e p q = absurd (omega arith)
mask_secret_size (a ∷ s) (b ∷ t) [] m m' e p q = cc
mask_secret_size (a ∷ s) (b ∷ t) (c ∷ ip) m m' e p q =
    let pm : mask_loop 4 0 (a ∷ s) (c ∷ ip) ≡ m = cc in
    let qm : mask_loop 4 0 (b ∷ t) (c ∷ ip) ≡ m' = cc in
    ap length (sym pm) ∙ length-mask_loop 4 0 0 (a ∷ s) (b ∷ t) (c ∷ ip) e ∙ ap length qm

-- What the second comparison is made with.
second_try_old :
    (old token ip m m' : Bytes)
    → length m ≡ length m'
    → mask_secret old ip ≡ ok m
    → token ≡ copy_into 8 m
    → second_try old token ip (copy_into 8 m') ≡ ok true
unfolding second_try
second_try_old old token ip m m' e p t =
    rw (p, overwrite-copy_into 8 m m' e, t) (matches_whole (copy_into 8 m))

token_text :
    (secret ip m token : Bytes)
    → mask_secret secret ip ≡ ok m
    → generate_token secret ip ≡ ok token
    → token ≡ copy_into 8 m
unfolding generate_token
token_text secret ip m token e g = let r : ok (copy_into 8 m) ≡ ok token = rw e at g in cc

validate_token_later :
    (fresh old ip token : Bytes)
    → ip ≢ []
    → length fresh ≡ length old
    → generate_token old ip ≡ ok token
    → validate_token fresh old token ip ≡ ok true
unfolding validate_token
validate_token_later fresh old ip token h e g =
    let (m, em) = mask_secret-ok old ip h in
    let (m', em') = mask_secret-ok fresh ip h in
    let text : token ≡ copy_into 8 m = token_text old ip m token em g in
    let expected : generate_token fresh ip ≡ ok (copy_into 8 m') =
      unfold generate_token in rw em' in
    let sizes : length token ≡ 8 = ap length text ∙ length-copy_into 8 m in
    let again : second_try old token ip (copy_into 8 m') ≡ ok true =
      second_try_old old token ip m m' (mask_secret_size old fresh ip m m' (sym e) em em') em
        text in
    rw expected (either (copy_into 8 m') (omega (arith, length-copy_into 8 m')) again)
  where
    either :
        (x : Bytes)
        → length token ≤ length x
        → second_try old token ip x ≡ ok true
        → (matches_prefix token x >>= λ first. if first then ok true else second_try old token ip x)
          ≡ ok true
    either x le again = unfold matches_prefix in ground arith

-- A token made for a nonempty address is accepted from that address, whatever the last secret; and
-- it still is after one rotation to a secret of the same length, when its secret has become the
-- last one.
pub validate_token-generate :
    (old fresh other ip token : Bytes)
    → ip ≢ []
    → length fresh ≡ length old
    → generate_token old ip ≡ ok token
    → (validate_token old other token ip ≡ ok true) × (validate_token fresh old token ip ≡ ok true)
validate_token-generate old fresh other ip token h e g =
    (validate_token_now old other ip token g, validate_token_later fresh old ip token h e g)

length-generate_token :
    (secret ip token : Bytes) → ip ≢ [] → generate_token secret ip ≡ ok token → length token ≡ 8
length-generate_token secret ip token h g =
    let (m, em) = mask_secret-ok secret ip h in
    ap length (token_text secret ip m token em g) ∙ length-copy_into 8 m

empty_matches : (x : Bytes) → matches_prefix [] x ≡ ok true
unfolding matches_prefix
empty_matches x = ground arith

-- The empty token is accepted from every nonempty address, whatever the secrets.
pub validate_token_empty :
    (secret last_secret ip : Bytes) → ip ≢ [] → validate_token secret last_secret [] ip ≡ ok true
validate_token_empty secret last_secret ip h =
    let (m, em) = mask_secret-ok secret ip h in
    unfold validate_token generate_token in rw (em, empty_matches (copy_into 8 m)) refl

-- A token of more than eight bytes makes `validateToken` panic, whatever the secrets.
pub validate_token_long :
    (secret last_secret token ip : Bytes)
    → ip ≢ []
    → 8 < length token
    → validate_token secret last_secret token ip ≡ panic
validate_token_long secret last_secret token ip h long =
    let (m, em) = mask_secret-ok secret ip h in
    unfold validate_token generate_token in
    rw (em, too_long (copy_into 8 m) (length-copy_into 8 m)) refl
  where
    too_long : (x : Bytes) → length x ≡ 8 → matches_prefix token x ≡ panic
    too_long x e = unfold matches_prefix in ground arith
