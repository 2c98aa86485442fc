-- ===== src/Base/Outcome.antt =====
-- A call that returns `(value, error)`: the value where the error is nil, else the error.
use mathlib.Core.Path.{◌≡◌, refl}
use mathlib.Core.Logic.{◌⊎◌, inl, inr}
use mathlib.Core.Bool.{Bool, true, false}

pub data Result {ℓ κ} (E : Type ℓ) (A : Type κ) : Type (ℓ ⊔ κ) where
  ok : A → Result E A
  err : E → Result E A

-- `if !test { return failure }`
abbrev pub guard {ℓ} : {E : Type ℓ} → Bool → E → Result E (Unit {0})
guard false failure = err failure
guard true _ = ok tt

infixl 5 ◌>>=◌ ◌>>◌
-- `if err != nil { return err }`, and on with the value.
abbrev pub ◌>>=◌ {ℓ κ ι} :
    {E : Type ℓ} {A : Type κ} {B : Type ι} → Result E A → (A → Result E B) → Result E B
err failure >>= next = err failure
ok value >>= next = next value

abbrev pub ◌>>◌ {ℓ κ} : {E : Type ℓ} {B : Type κ} → Result E (Unit {0}) → Result E B → Result E B
checked >> next = checked >>= λ done. next

module _ {ℓ κ} {E : Type ℓ} {A : Type κ} where
  abbrev pub is_ok : Result E A → Bool
  is_ok (ok a) = true
  is_ok (err e) = false

  pub Result-cases : (r : Result E A) → ((a : A) × (r ≡ ok a)) ⊎ ((e : E) × (r ≡ err e))
  Result-cases (ok a) = inl (a, refl)
  Result-cases (err e) = inr (e, refl)

  pub >>=-eq-ok {ι} :
      {B : Type ι} (call : Result E A) (next : A → Result E B) {result : B}
      → (call >>= next) ≡ ok result
      → (value : A) × (call ≡ ok value) × (next value ≡ ok result)
  >>=-eq-ok (err failure) next eq = cc
  >>=-eq-ok (ok value) next eq = (value, refl, eq)

  pub ok-injective : {a b : A} → ◌≡◌ {A = Result E A} (ok a) (ok b) → a ≡ b
  ok-injective e = cc

  pub err-injective : {d e : E} → ◌≡◌ {A = Result E A} (err d) (err e) → d ≡ e
  err-injective e = cc

  pub ok-ne-err : {a : A} {e : E} → ¬ (◌≡◌ {A = Result E A} (ok a) (err e))
  ok-ne-err e = cc

module _ {ℓ κ ι} {E : Type ℓ} {F : Type κ} {A : Type ι} where
  -- fmt.Errorf with %w: the error in the words of the caller.
  abbrev pub wrap : (E → F) → Result E A → Result F A
  wrap f (ok a) = ok a
  wrap f (err e) = err (f e)

  pub wrap-eq-ok : (f : E → F) (r : Result E A) {a : A} → wrap f r ≡ ok a → r ≡ ok a
  wrap-eq-ok f (ok a) e = cc
  wrap-eq-ok f (err x) e = cc

pub guard-ok {ℓ} :
    {E : Type ℓ} (b : Bool) (failure : E) {u : Unit {0}} → guard b failure ≡ ok u → b ≡ true
guard-ok true failure eq = refl
guard-ok false failure eq = cc
