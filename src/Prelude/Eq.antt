-- ===== src/Prelude/Eq.antt =====
-- Python's `==` on the types that the program compares.
use Prim.Native.Nat.{ℕ}
use Prim.Native.String.{String}
use mathlib.Core.Path.{◌≡◌, refl, ap, sym, ◌∙◌}
use mathlib.Core.Logic.{◌↔◌, ◌≢◌}
use mathlib.Core.Bool.{Bool, true, false, ◌&&◌}
use mathlib.Core.List.{List, [], ◌∷◌}
use native.Mathlib.Omega.{arith}
use text.Mathlib.Text.{◌==◌ as str_beq}
use text.Mathlib.TextEquality.{eq_iff}
use financial_engineering_sk.Prelude.Tests.{nat_beq, nat_beq_iff}
use financial_engineering_sk.Prelude.Int.{ℤ, int_beq, int_beq_iff}

pub record Equality {ℓ} (A : Type ℓ) : Type ℓ where
  pub same : A → A → Bool
  pub same_iff : (a b : A) → (same a b ≡ true) ↔ (a ≡ b)

infix 50 ◌==◌
abbrev pub ◌==◌ {ℓ} : {A : Type ℓ} ⦃e : Equality A⦄ → A → A → Bool
◌==◌ ⦃e⦄ = e.same

instance abbrev pub nat_eq : Equality ℕ
nat_eq = record { same = nat_beq; same_iff = nat_beq_iff }

instance abbrev pub string_eq : Equality String
string_eq = record { same = str_beq; same_iff = eq_iff }

instance abbrev pub int_eq : Equality ℤ
int_eq = record { same = int_beq; same_iff = int_beq_iff }

abbrev bool_beq : Bool → Bool → Bool
bool_beq true b = b
bool_beq false true = false
bool_beq false false = true

pub bool_beq_iff : (a b : Bool) → (bool_beq a b ≡ true) ↔ (a ≡ b)
bool_beq_iff a b = (λ h. ground arith, λ h. ground arith)

instance abbrev pub bool_eq : Equality Bool
bool_eq = record { same = bool_beq; same_iff = bool_beq_iff }

module _ {ℓ} {A : Type ℓ} ⦃e : Equality A⦄ where
  pub eq_self : (a : A) → (a == a) ≡ true
  eq_self a = (e.same_iff a a).1 refl

  pub eq_sound : (a b : A) → (a == b) ≡ true → a ≡ b
  eq_sound a b h = (e.same_iff a b).0 h

  pub eq_test : (a b : A) → a ≡ b → (a == b) ≡ true
  eq_test a b h = (e.same_iff a b).1 h

  pub ne_sound : (a b : A) → (a == b) ≡ false → a ≢ b
  ne_sound a b h p = ground (arith, (e.same_iff a b).1 p)

  pub ne_test : (a b : A) → a ≢ b → (a == b) ≡ false
  ne_test a b h = ground (arith, e.same_iff a b)

module _ {ℓ κ} {A : Type ℓ} {B : Type κ} ⦃e : Equality A⦄ ⦃f : Equality B⦄ where
  abbrev pair_beq : A × B → A × B → Bool
  pair_beq (a, b) (c, d) = e.same a c && f.same b d

  pub pair_beq_iff : (p q : A × B) → (pair_beq p q ≡ true) ↔ (p ≡ q)
  pair_beq_iff (a, b) (c, d) = (
    λ h. ground (arith, e.same_iff a c, f.same_iff b d),
    λ h. ground (
      arith,
      e.same_iff a c,
      f.same_iff b d,
      ap (λ (p : A × B). p.0) h,
      ap (λ (p : A × B). p.1) h,
    ),
  )

  instance abbrev pub pair_eq : Equality (A × B)
  pair_eq = record { same = pair_beq; same_iff = pair_beq_iff }

module _ {ℓ} {A : Type ℓ} ⦃e : Equality A⦄ where
  abbrev list_beq : List A → List A → Bool
  list_beq [] [] = true
  list_beq [] (y ∷ ys) = false
  list_beq (x ∷ xs) [] = false
  list_beq (x ∷ xs) (y ∷ ys) = e.same x y && list_beq xs ys

  pub list_beq_iff : (xs ys : List A) → (list_beq xs ys ≡ true) ↔ (xs ≡ ys)
  list_beq_iff [] [] = (λ h. refl, λ h. refl)
  list_beq_iff [] (y ∷ ys) = (λ h. cc, λ h. cc)
  list_beq_iff (x ∷ xs) [] = (λ h. cc, λ h. cc)
  list_beq_iff (x ∷ xs) (y ∷ ys) = (
    λ h. ground (arith, e.same_iff x y, list_beq_iff xs ys),
    λ h. ground (arith, e.same_iff x y, list_beq_iff xs ys),
  )

  instance abbrev pub list_eq : Equality (List A)
  list_eq = record { same = list_beq; same_iff = list_beq_iff }

-- A type that is compared by its parts.
module _ {ℓ κ} {A : Type ℓ} {B : Type κ} ⦃e : Equality B⦄ (f : A → B) (g : B → A) where
  pub via_iff : ((a : A) → g (f a) ≡ a) → (a b : A) → (e.same (f a) (f b) ≡ true) ↔ (a ≡ b)
  via_iff back a b = (
    λ h. sym (back a) ∙ ap g ((e.same_iff (f a) (f b)).0 h) ∙ back b,
    λ h. (e.same_iff (f a) (f b)).1 (ap f h),
  )

  abbrev pub equality_via : ((a : A) → g (f a) ≡ a) → Equality A
  equality_via back = record { same = λ a b. e.same (f a) (f b); same_iff = via_iff back }
