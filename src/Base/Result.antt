-- ===== src/Base/Result.antt =====
-- `result.Result[T]` and the pairs `(T, error)` of the Go code: a value or an error. An error is
-- its message.
use Prim.Native.String.{String}
use mathlib.Core.Path.{◌≡◌, refl}
use mathlib.Core.Logic.{◌⊎◌, inl, inr}
use mathlib.Core.Bool.{Bool, true, false}

pub data Result {ℓ} (A : Type ℓ) : Type ℓ where
  ok : A → Result A
  err : String → Result A

module _ {ℓ κ} {S : Type ℓ} {T : Type κ} where
  infixl 5 ◌>>=◌
  -- `value, err := r.Value(); if err != nil { return err }`, and what is done with the value
  abbrev pub ◌>>=◌ : Result S → (S → Result T) → Result T
  err message >>= next = err message
  ok value >>= next = next value

  -- A chain that comes to an end got past its first step.
  pub >>=-eq-ok :
      (r : Result S) (next : S → Result T) {t : T}
      → (r >>= next) ≡ ok t
      → (value : S) × (r ≡ ok value) × (next value ≡ ok t)
  >>=-eq-ok (err message) next h = cc
  >>=-eq-ok (ok value) next h = (value, refl, h)

infixl 5 ◌>>◌
abbrev pub ◌>>◌ {ℓ} : {T : Type ℓ} → Result (Unit {0}) → Result T → Result T
r >> rest = r >>= λ _. rest

-- `if bad { return err }`
abbrev pub reject_if : Bool → String → Result (Unit {0})
reject_if false message = ok tt
reject_if true message = err message

pub Result-cases {ℓ} :
    {A : Type ℓ} (r : Result A) → ((a : A) × (r ≡ ok a)) ⊎ ((e : String) × (r ≡ err e))
Result-cases (ok a) = inl (a, refl)
Result-cases (err e) = inr (e, refl)
