-- ===== src/Prelude/Effects.antt =====
-- The exceptions that the program raises, results of code that may raise, and methods that
-- change an object and may raise: what was written before a raise stays written.
use mathlib.Core.Path.{◌≡◌, refl, ap}
use mathlib.Core.Bool.{Bool, true, false}
use Prim.Native.String.{String}

pub data Error : Type 0 where
  invalid_amount invalid_currency invalid_identifier : Error
  unbalanced effect_conflict : Error
  intent_mismatch foreign_authority unknown_break break_already_closed : Error
  ambiguous_timeout key_mismatch wrong_authority : Error
  authority_mismatch response_mismatch : Error
  value_error key_error attribute_error injected_failure : Error
  duplicate_transaction duplicate_hold unknown_hold refund_ceiling unknown_transaction : Error
  rejected : String → Error
  ambiguous_response illegal_transition sequence_anomaly : Error
  unknown_fee_asset insufficient_available zero_division index_error : Error

pub data Result {ℓ} (A : Type ℓ) : Type ℓ where
  ok : A → Result A
  err : Error → Result A

abbrev pub Exec : Type 0 → Type 0 → Type 0
Exec S A = S → Result A × S

module _ {S A : Type 0} where
  abbrev pub pure : A → Exec S A
  pure a s = (ok a, s)

  abbrev pub raise : Error → Exec S A
  raise e s = (err e, s)

  abbrev pub lift : Result A → Exec S A
  lift r s = (r, s)

  abbrev pub gets : (S → A) → Exec S A
  gets f s = (ok (f s), s)

abbrev pub modify : {S : Type 0} → (S → S) → Exec S Unit
modify f s = (ok tt, f s)

abbrev pub raise_if : {S : Type 0} → Bool → Error → Exec S Unit
raise_if true e s = (err e, s)
raise_if false e s = (ok tt, s)

module _ {S A B : Type 0} where
  abbrev pub continue : Result A → (A → Exec S B) → Exec S B
  continue (ok a) f s = f a s
  continue (err e) f s = (err e, s)

  infixl 5 ◌>>=◌ ◌>>◌
  abbrev pub ◌>>=◌ : Exec S A → (A → Exec S B) → Exec S B
  ◌>>=◌ m f s = let (r, s') = m s in continue r f s'

  abbrev pub ◌>>◌ : Exec S A → Exec S B → Exec S B
  m >> k = m >>= λ _. k

-- Chains of checks that change nothing.
abbrev pub and_then {ℓ κ} : {A : Type ℓ} {B : Type κ} → Result A → (A → Result B) → Result B
and_then (ok a) f = f a
and_then (err e) f = err e

-- A callback that a caller may pass in: none, one that returns, or one that raises.
pub data Hook : Type 0 where
  absent returns : Hook
  raises : Error → Hook

unfoldable pub run_hook : Hook → {S : Type 0} → Exec S Unit
run_hook absent s = (ok tt, s)
run_hook returns s = (ok tt, s)
run_hook (raises e) s = (err e, s)

abbrev pub Returns : Hook → Type 0
Returns (raises e) = ⊥
Returns _ = Unit

pub run_hook-Returns : {S : Type 0} (h : Hook) (s : S) → Returns h → run_hook h s ≡ (ok tt, s)
unfolding run_hook
run_hook-Returns absent s r = refl
run_hook-Returns returns s r = refl
run_hook-Returns (raises e) s r = absurd r

-- A callback writes nothing.
pub run_hook-keeps : {S : Type 0} (h : Hook) (s : S) → (run_hook h s).1 ≡ s
unfolding run_hook
run_hook-keeps absent s = refl
run_hook-keeps returns s = refl
run_hook-keeps (raises e) s = refl

-- A chain of checks that passes has passed each check.
pub and_then-eq-ok {ℓ κ} :
    {A : Type ℓ} {B : Type κ} (m : Result A) (f : A → Result B) {b : B}
    → and_then m f ≡ ok b
    → (a : A) × (m ≡ ok a) × (f a ≡ ok b)
and_then-eq-ok (ok a) f h = (a, refl, h)
and_then-eq-ok (err e) f h = cc

pub ok-injective {ℓ} : {A : Type ℓ} {a b : A} → ok a ≡ ok b → a ≡ b
ok-injective h = cc

module _ {ℓ κ} {A : Type ℓ} {B : Type κ} {p q : A × B} where
  pub ok-first : ok p ≡ ok q → p.0 ≡ q.0
  ok-first h = ap (λ (r : A × B). r.0) (ok-injective h)

  pub ok-second : ok p ≡ ok q → p.1 ≡ q.1
  ok-second h = ap (λ (r : A × B). r.1) (ok-injective h)

pub err≢ok {ℓ} : {A : Type ℓ} {e : Error} {a : A} → err e ≡ ok a → ⊥
err≢ok h = cc
