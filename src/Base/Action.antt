-- ===== src/Base/Action.antt =====
-- Calls that read and change a state and may fail: `func(ctx, …) result.Result[T]` on a store.
-- A failed call leaves the state as it was when it failed.
use mathlib.Core.Path.{◌≡◌, refl}
use gopnique.Base.Result.{Result, ok, err}

abbrev pub Action {ℓ κ} : Type ℓ → Type κ → Type (ℓ ⊔ κ)
Action S A = S → Result A × S

module _ {ℓ κ ν} {S : Type ℓ} {A : Type κ} {B : Type ν} where
  abbrev pub continue_with : Result A × S → (A → Action S B) → Result B × S
  continue_with (err e, s) next = (err e, s)
  continue_with (ok a, s) next = next a s

  infixl 5 ◌>>=◌
  -- `value, err := call(); if err != nil { return err }`, and what is done with the value
  abbrev pub ◌>>=◌ : Action S A → (A → Action S B) → Action S B
  call >>= next = λ s. continue_with (call s) next

module _ {ℓ κ} {S : Type ℓ} {A : Type κ} where
  abbrev pub return_ : A → Action S A
  return_ a = λ s. (ok a, s)

  -- a computation that does not touch the state
  abbrev pub lift : Result A → Action S A
  lift r = λ s. (r, s)

module _ {ℓ κ ν} {S : Type ℓ} {A : Type κ} {B : Type ν} where
  -- A chain that comes to an end got past its first call.
  pub >>=-eq-ok :
      (call : Action S A) (next : A → Action S B) (s : S) {b : B} {t : S}
      → (call >>= next) s ≡ (ok b, t)
      → (a : A) × (mid : S) × (call s ≡ (ok a, mid)) × (next a mid ≡ (ok b, t))
  >>=-eq-ok call next s {b} {t} h = inverted (call s) refl h
    where
      inverted :
          (r : Result A × S)
          → call s ≡ r
          → continue_with r next ≡ (ok b, t)
          → (a : A) × (mid : S) × (call s ≡ (ok a, mid)) × (next a mid ≡ (ok b, t))
      inverted (err e, mid) f g = cc g
      inverted (ok a, mid) f g = (a, mid, f, g)
