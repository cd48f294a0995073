-- ===== src/Prelude/Dict.antt =====
-- Python's `dict`: key and value in insertion order.
use mathlib.Core.Path.{◌≡◌, refl, subst, ap₂}
use mathlib.Core.Logic.{inl, inr}
use mathlib.Core.List.{List, [], ◌∷◌}
use mathlib.Core.Option.{Option, none, some}
use native.Mathlib.Omega.{arith}
use financial_engineering_sk.Prelude.Tests.{if◌then◌else◌, Bool-cases}
use financial_engineering_sk.Prelude.Eq.{Equality, ◌==◌}
use financial_engineering_sk.Prelude.Lists.{All}

abbrev pub Dict {ℓ κ} : Type ℓ → Type κ → Type (ℓ ⊔ κ)
Dict K V = List (K × V)

pub some_path {ℓ} : {A : Type ℓ} {a b : A} → some a ≡ some b → a ≡ b
some_path h = cc

pub none≢some {ℓ} : {A : Type ℓ} {a : A} → none ≡ some a → ⊥
none≢some h = cc

module _ {ℓ κ} {K : Type ℓ} {V : Type κ} ⦃e : Equality K⦄ where
  -- d.get(k)
  abbrev pub lookup : K → Dict K V → Option V
  lookup k [] = none
  lookup k ((j, v) ∷ d) = if j == k then some v else lookup k d

  -- d.get(k, v)
  abbrev pub lookup_or : V → K → Dict K V → V
  lookup_or v k d = elim (lookup k d) [ none ↦ v | some w ↦ w ]

  -- d[k] = v
  abbrev pub insert : K → V → Dict K V → Dict K V
  insert k v [] = (k, v) ∷ []
  insert k v ((j, w) ∷ d) = if j == k then (j, v) ∷ d else (j, w) ∷ insert k v d

  -- d.setdefault(k, v), for its effect on `d`
  abbrev pub set_default : K → V → Dict K V → Dict K V
  set_default k v d = elim (lookup k d) [ none ↦ insert k v d | some _ ↦ d ]

  -- d.pop(k, None), for its effect on `d`: no key of a dict stands twice
  abbrev pub remove : K → Dict K V → Dict K V
  remove k [] = []
  remove k ((j, w) ∷ d) = let rest = remove k d in if j == k then rest else (j, w) ∷ rest

  pub lookup-remove :
      (k j : K) (d : Dict K V) → lookup j (remove k d) ≡ (if k == j then none else lookup j d)
  lookup-remove k j [] = ground arith
  lookup-remove k j ((i, w) ∷ d) =
      ground (arith, e.same_iff k j, e.same_iff i k, e.same_iff i j, lookup-remove k j d)

  pub lookup-insert :
      (k j : K) (v : V) (d : Dict K V)
      → lookup j (insert k v d) ≡ (if k == j then some v else lookup j d)
  lookup-insert k j v [] = refl
  lookup-insert k j v ((i, w) ∷ d) =
      ground (arith, e.same_iff k j, e.same_iff i k, e.same_iff i j, lookup-insert k j v d)

  pub lookup-insert_self : (k : K) (v : V) (d : Dict K V) → lookup k (insert k v d) ≡ some v
  lookup-insert_self k v d = ground (arith, lookup-insert k k v d, e.same_iff k k)

  pub lookup-set_default :
      (k j : K) (v : V) (d : Dict K V)
      → lookup j (set_default k v d)
        ≡ elim (lookup j d) [ none ↦ (if k == j then some v else none) | some w ↦ some w ]
  lookup-set_default k j v d = ground (arith, e.same_iff k j, lookup-insert k j v d)

module _ {ℓ κ} {K : Type ℓ} {V : Type κ} ⦃e : Equality K⦄ where
  -- No key stands twice.
  abbrev pub UniqueKeys : Dict K V → Type κ
  UniqueKeys [] = Unit
  UniqueKeys ((k, v) ∷ d) = (lookup k d ≡ none) × UniqueKeys d

  pub insert-UniqueKeys : (k : K) (v : V) (d : Dict K V) → UniqueKeys d → UniqueKeys (insert k v d)
  insert-UniqueKeys k v [] h = (refl, tt)
  insert-UniqueKeys k v ((j, w) ∷ d) h =
      ground
        (arith, insert-UniqueKeys k v d h.1, lookup-insert k j v d, e.same_iff j k, e.same_iff k j)

-- A property of every key and value.
module _ {ℓ κ μ} {K : Type ℓ} {V : Type κ} ⦃e : Equality K⦄ (P : K × V → Type μ) where
  pub insert-All : (k : K) (v : V) (d : Dict K V) → P (k, v) → All P d → All P (insert k v d)
  insert-All k v [] p h = (p, tt)
  insert-All k v ((j, w) ∷ d) p h = elim (Bool-cases (j == k)) [
    | inl same ↦ rw same (rw ((e.same_iff j k).0 same) p, h.1)
    | inr other ↦ rw other (h.0, insert-All k v d p h.1)
  ]

  pub lookup-All : (k : K) (v : V) (d : Dict K V) → All P d → lookup k d ≡ some v → P (k, v)
  lookup-All k v [] h q = absurd (none≢some q)
  lookup-All k v ((j, w) ∷ d) h q = elim (Bool-cases (j == k)) [
    | inl same ↦
        subst P
          (ap₂ (λ (i : K) (x : V). (i, x)) ((e.same_iff j k).0 same) (some_path (rw same at q))) h.0
    | inr other ↦ lookup-All k v d h.1 (rw other at q)
  ]
