-- ===== src/Base/Results.antt =====
-- The outcomes of code that may raise, with the exceptions that the source raises or catches.
use mathlib.Core.Bool.{Bool, true, false}
use mathlib.Core.Logic.{◌⊎◌, inl, inr}
use mathlib.Core.Path.{◌≡◌, refl}
use mathlib.Core.Option.{Option, none, some}

pub data Error : Type 0 where
  index_error value_error struct_error type_error key_error unicode_error runtime_error : Error
  crypto_error assertion_error not_implemented opus_error audioop_error voice_recv_error
        client_exception :
      Error

pub data Result {ℓ} (A : Type ℓ) : Type ℓ where
  raise : Error → Result A
  ok : A → Result A

-- `if not b: raise e`.
abbrev pub guard : Bool → Error → Result (Unit {0})
guard false error = raise error
guard true _ = ok tt

-- The code that follows runs on the value, and not at all after an exception.
infixl 5 ◌>>=◌ ◌>>◌
abbrev pub ◌>>=◌ {κ ℓ} : {X : Type κ} {Y : Type ℓ} → Result X → (X → Result Y) → Result Y
raise error >>= next = raise error
ok x >>= next = next x

abbrev pub ◌>>◌ {ℓ} : {Y : Type ℓ} → Result (Unit {0}) → Result Y → Result Y
raise error >> next = raise error
ok _ >> next = next

abbrev pub or_raise {ℓ} : {A : Type ℓ} → Option A → Error → Result A
or_raise none e = raise e
or_raise (some a) e = ok a

pub Result-cases {ℓ} :
    {A : Type ℓ} (r : Result A) → ((e : Error) × (r ≡ raise e)) ⊎ ((a : A) × (r ≡ ok a))
Result-cases (raise e) = inl (e, refl)
Result-cases (ok a) = inr (a, refl)
