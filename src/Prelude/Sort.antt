-- ===== src/Prelude/Sort.antt =====
-- `sorted`: insertion sort by an order on keys, and that it keeps the members.
use Prim.Native.Nat.{Ordering}
use Prim.Native.String.{String, compare}
use mathlib.Core.Bool.{Bool, true, false}
use mathlib.Core.List.{List, [], ◌∷◌}
use financial_engineering_sk.Prelude.Tests.{if◌then◌else◌}
use financial_engineering_sk.Prelude.Eq.{◌==◌, string_eq}
use financial_engineering_sk.Prelude.Lists.{All}

abbrev pub text_le : String → String → Bool
text_le s t = elim (compare s t) [ Ordering.gt ↦ false | _ ↦ true ]

-- tuples of two texts
abbrev pub pair_le : String × String → String × String → Bool
pair_le (a, b) (c, d) = if a == c then text_le b d else text_le a c

module _ {ℓ} {A : Type ℓ} where
  abbrev pub insert_sorted : (A → A → Bool) → A → List A → List A
  insert_sorted le x [] = x ∷ []
  insert_sorted le x (y ∷ ys) = if le x y then x ∷ y ∷ ys else y ∷ insert_sorted le x ys

  abbrev pub sorted : (A → A → Bool) → List A → List A
  sorted le [] = []
  sorted le (x ∷ xs) = insert_sorted le x (sorted le xs)

module _ {ℓ κ} {A : Type ℓ} (P : A → Type κ) (le : A → A → Bool) where
  insert_step :
      (x y : A) (ys zs : List A) (b : Bool)
      → P x
      → P y × All P ys
      → All P zs
      → All P (if b then x ∷ y ∷ ys else y ∷ zs)
  insert_step x y ys zs true p h k = (p, h)
  insert_step x y ys zs false p h k = (h.0, k)

  uninsert_step :
      (x y : A) (ys zs : List A) (b : Bool)
      → (All P zs → P x × All P ys)
      → All P (if b then x ∷ y ∷ ys else y ∷ zs)
      → P x × (P y × All P ys)
  uninsert_step x y ys zs true f h = h
  uninsert_step x y ys zs false f h = let r : P x × All P ys = f h.1 in (r.0, (h.0, r.1))

  All-insert_sorted : (x : A) (xs : List A) → P x → All P xs → All P (insert_sorted le x xs)
  All-insert_sorted x [] p h = (p, tt)
  All-insert_sorted x (y ∷ ys) p h =
      insert_step x y ys (insert_sorted le x ys) (le x y) p h (All-insert_sorted x ys p h.1)

  All-uninsert : (x : A) (xs : List A) → All P (insert_sorted le x xs) → P x × All P xs
  All-uninsert x [] h = h
  All-uninsert x (y ∷ ys) h =
      uninsert_step x y ys (insert_sorted le x ys) (le x y) (All-uninsert x ys) h

  pub All-sorted : (xs : List A) → All P xs → All P (sorted le xs)
  All-sorted [] h = tt
  All-sorted (x ∷ xs) h = All-insert_sorted x (sorted le xs) h.0 (All-sorted xs h.1)

  pub All-unsorted : (xs : List A) → All P (sorted le xs) → All P xs
  All-unsorted [] h = tt
  All-unsorted (x ∷ xs) h =
      let r : P x × All P (sorted le xs) = All-uninsert x (sorted le xs) h in
      (r.0, All-unsorted xs r.1)

-- sorted(d.items()), of a dict keyed by texts: no two keys are equal, so the values play no part
abbrev pub by_key {ℓ} : {V : Type ℓ} → String × V → String × V → Bool
by_key (j, v) (k, w) = text_le j k
