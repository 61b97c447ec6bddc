-- ===== src/Prelude/Results.antt =====
-- What a Go function that may fail does: return, return an error, or panic. A panic in a goroutine
-- ends the process, so it is no error value.

use mathlib.Core.Logic.{◌≢◌}
use mathlib.Core.Bool.{Bool, true, false}
use bt_dht_crawler.Prelude.Tests.{if◌then◌else◌}

pub data Error : Type 0 where
  -- internal/bt/bencode.go: ErrInvalidBencode, ErrUnexpectedEOF, and "unsupported type".
  invalid_bencode unexpected_eof unsupported_type : Error
  -- "expected dictionary".
  not_dictionary : Error
  -- strconv.ErrSyntax and strconv.ErrRange.
  bad_syntax out_of_range : Error
  -- "invalid hex length", "invalid byte length", and an odd or foreign digit in a hex text.
  bad_length bad_hex : Error
  -- A failed call of the storage, of the network or of the source of randomness.
  external : Error
  -- "count must be positive".
  bad_count : Error
  -- "not a data message" and "missing piece index".
  not_data missing_piece : Error
  -- "message too large".
  too_large : Error
  -- internal/bt/metadata.go: ErrNoMetadataSupport, ErrInvalidMetadata or a wrong info hash, ErrMetadataTooBig.
  no_metadata_support wrong_hash metadata_too_big : Error
  -- The model's own: a loop had too little fuel.
  out_of_fuel : Error

pub data Outcome {ℓ} (A : Type ℓ) : Type ℓ where
  ok : A → Outcome A
  err : Error → Outcome A
  panic : Outcome A

infixl 5 ◌>>=◌
abbrev pub ◌>>=◌ {ℓ κ} : {A : Type ℓ} {B : Type κ} → Outcome A → (A → Outcome B) → Outcome B
ok a >>= f = f a
err e >>= f = err e
panic >>= f = panic

-- The call did not run out of fuel, and what it returned satisfies `P`.
abbrev pub Ends : {A : Type 0} → (A → Type 0) → Outcome A → Type 0
Ends P (ok a) = P a
Ends P (err Error.out_of_fuel) = ⊥
Ends P (err _) = Unit {0}
Ends P panic = Unit {0}

pub Ends-bind :
    {A B : Type 0} (P : A → Type 0) (Q : B → Type 0) (m : Outcome A) (f : A → Outcome B)
    → Ends P m
    → ((a : A) → P a → Ends Q (f a))
    → Ends Q (m >>= f)
Ends-bind P Q (ok a) f h k = k a h
Ends-bind P Q (err Error.out_of_fuel) f h k = h
Ends-bind P Q (err _) f h k = tt
Ends-bind P Q panic f h k = tt

pub Ends-mono :
    {A : Type 0} (P Q : A → Type 0) (m : Outcome A) → ((a : A) → P a → Q a) → Ends P m → Ends Q m
Ends-mono P Q (ok a) k h = k a h
Ends-mono P Q (err Error.out_of_fuel) k h = h
Ends-mono P Q (err _) k h = tt
Ends-mono P Q panic k h = tt

pub Ends-ne_fuel :
    {A : Type 0} (P : A → Type 0) (m : Outcome A) → Ends P m → m ≢ err Error.out_of_fuel
Ends-ne_fuel P (ok a) h e = cc
Ends-ne_fuel P (err Error.out_of_fuel) h e = h
Ends-ne_fuel P (err Error.bad_syntax) h e = cc
Ends-ne_fuel P (err _) h e = cc
Ends-ne_fuel P panic h e = cc

abbrev pub Always : {A : Type 0} → A → Type 0
Always a = Unit {0}

pub Ends-if :
    {A : Type 0} (P : A → Type 0) (b : Bool) (m n : Outcome A)
    → Ends P m
    → Ends P n
    → Ends P (if b then m else n)
Ends-if P true m n h k = h
Ends-if P false m n h k = k
