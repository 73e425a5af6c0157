-- ===== src/Base/Outcome.antt =====
-- What a Go call gives back: a value, an `error`, or a run-time panic.
use Prim.Native.String.{String}
use mathlib.Core.Path.{◌≡◌, refl}
use mathlib.Core.Logic.{◌⊎◌, inl, inr}

-- `no_pass_filter` is the variable `ErrNoPassFilter`, which is compared by identity; `failure` is any
-- other error, known by what `Error()` returns.
pub data Error : Type 0 where
  no_pass_filter : Error
  failure : String → Error

-- `Error()`
abbrev pub message : Error → String
message (failure text) = text
message no_pass_filter = "no pass filter err"

pub data Result {ℓ} (A : Type ℓ) : Type ℓ where
  panic : Result A
  err : (error : Error) → Result A
  ok : (value : A) → Result A

infixl 5 ◌>>=◌ ◌>>◌
abbrev pub ◌>>=◌ {ℓ κ} :
    {A : Type ℓ} {B : Type κ} (first : Result A) (next : A → Result B) → Result B
panic >>= next = panic
err error >>= next = err error
ok value >>= next = next value

abbrev pub ◌>>◌ {ℓ} : {B : Type ℓ} (first : Result (Unit {0})) (second : Result B) → Result B
first >> second = first >>= λ _. second

pub Result-cases {ℓ} :
    {A : Type ℓ} (r : Result A)
    → ((a : A) × (r ≡ ok a)) ⊎ (((e : Error) × (r ≡ err e)) ⊎ (r ≡ panic))
Result-cases panic = inr (inr refl)
Result-cases (err error) = inr (inl (error, refl))
Result-cases (ok value) = inl (value, refl)
