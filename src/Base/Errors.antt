-- ===== src/Base/Errors.antt =====
-- A computation that may raise, and the exceptions that the modelled code tells apart.
use mathlib.Core.Path.{◌≡◌, refl}
use mathlib.Core.Logic.{◌⊎◌, inl, inr}
use mathlib.Core.Option.{Option, none, some}

pub data Error : Type 0 where
  value_error type_error key_error zero_division runtime_error : Error

pub data Result {ℓ} (A : Type ℓ) : Type ℓ where
  ok : A → Result A
  raise : Error → Result A

infixl 5 ◌>>=◌
abbrev pub ◌>>=◌ {ℓ κ} : {A : Type ℓ} {B : Type κ} → Result A → (A → Result B) → Result B
ok a >>= f = f a
raise e >>= f = raise e

-- `try: … except (…): return None`
abbrev pub caught {ℓ} : {A : Type ℓ} → Result (Option A) → Option A
caught (ok o) = o
caught (raise e) = none

-- `try: … except (TypeError, ValueError, KeyError): continue`: any other error goes on.
abbrev pub skip_bad {ℓ} : {A : Type ℓ} → Result (Option A) → Result (Option A)
skip_bad (ok o) = ok o
skip_bad (raise value_error) = ok none
skip_bad (raise type_error) = ok none
skip_bad (raise key_error) = ok none
skip_bad (raise zero_division) = raise zero_division
skip_bad (raise runtime_error) = raise runtime_error

pub Result-cases {ℓ} :
    {A : Type ℓ} (r : Result A) → ((e : Error) × (r ≡ raise e)) ⊎ ((a : A) × (r ≡ ok a))
Result-cases (raise e) = inl (e, refl)
Result-cases (ok a) = inr (a, refl)

-- What a chain that may raise returns, if it does.
abbrev pub IfOk {ℓ κ} : {A : Type ℓ} → (A → Type κ) → Result A → Type κ
IfOk P (raise e) = Unit
IfOk P (ok a) = P a

pub caught-some {ℓ} :
    {A : Type ℓ} (r : Result (Option A)) {a : A} → caught r ≡ some a → r ≡ ok (some a)
caught-some (ok o) h = cc
caught-some (raise e) h = cc

pub skip_bad-some {ℓ} :
    {A : Type ℓ} (r : Result (Option A)) {a : A} → skip_bad r ≡ ok (some a) → r ≡ ok (some a)
skip_bad-some (ok o) h = h
skip_bad-some (raise value_error) h = cc
skip_bad-some (raise type_error) h = cc
skip_bad-some (raise key_error) h = cc
skip_bad-some (raise zero_division) h = cc
skip_bad-some (raise runtime_error) h = cc
