-- ===== src/Store/Intents.antt =====
-- How `Store.open_intent` ends.
use financial_engineering_sk.Prelude.{
  ◌≡◌, ◌⊎◌, refl, false, List, [], ◌∷◌, Option, none, some, String, arith, ◌==◌, string_eq, int_eq,
  pair_eq, list_eq, eq_self, eq_sound, Result, Error, ok, err, foreign_authority, intent_mismatch,
  Bool-cases, inl, inr,
}
use financial_engineering_sk.Prelude.Dict.{lookup, insert}
use financial_engineering_sk.Prelude.Int.{ℤ}
use financial_engineering_sk.Value.{Value}
use financial_engineering_sk.Money.{AuthorityScope, fields}
use financial_engineering_sk.Store.Record.{Intent, authority_of, binding, pinned, Store}
use financial_engineering_sk.Store.{checked_intent, serves_another, find_or_open, open_intent}

-- A call by another authority than the one that the book serves is refused; so is one for a key
-- that holds another decision; else it returns the intent on file, or opens the new one.
pub data Opened (wanted : Intent) (s : Store) : Result Intent × Store → Type 0 where
  refused : (e : Error) → Opened wanted s (err e, s)
  held :
      (i : Intent)
      → lookup wanted.key s.intents ≡ some i
      → binding i ≡ binding wanted
      → Opened wanted s (ok i, s)
  opened :
      lookup wanted.key s.intents ≡ none
      → (s.authority ≡ []) ⊎ (s.authority ≡ authority_of wanted)
      → Opened wanted s (
        ok wanted,
        record s { intents = insert wanted.key wanted s.intents; authority = authority_of wanted },
      )

serves_another-cases :
    (held wanted : List String) → serves_another held wanted ≡ false → (held ≡ []) ⊎ (held ≡ wanted)
serves_another-cases [] wanted h = inl refl
serves_another-cases (f ∷ fs) wanted h = inr (eq_sound (f ∷ fs) wanted (ground (arith, h)))

pub serves_mine : (held wanted : List String) → held ≡ wanted → serves_another held wanted ≡ false
serves_mine [] wanted h = refl
serves_mine (f ∷ fs) wanted h = rw (← h, eq_self (f ∷ fs)) refl

find_or_open-Opened :
    (wanted : Intent) (s : Store) (o : Option Intent)
    → lookup wanted.key s.intents ≡ o
    → (s.authority ≡ []) ⊎ (s.authority ≡ authority_of wanted)
    → Opened wanted s (find_or_open wanted o s)
unfolding find_or_open
find_or_open-Opened wanted s none e free = opened e free
find_or_open-Opened wanted s (some i) e free = elim (Bool-cases (binding i == binding wanted)) [
  | inl same ↦ rw same (held i e (eq_sound (binding i) (binding wanted) same))
  | inr other ↦ rw other (refused intent_mismatch)
]

module _ (key invoice_id : Value) (amount : ℤ) (currency : String) (authority : AuthorityScope)
    (s : Store) where
  -- What is not well formed is refused before the book is claimed.
  pub open_intent_refused :
      {e : Error}
      → checked_intent key invoice_id authority ≡ err e
      → open_intent key invoice_id amount currency authority s ≡ (err e, s)
  unfolding open_intent
  open_intent_refused h = rw h refl

  pub open_intent-Opened :
      {k i : String}
      → checked_intent key invoice_id authority ≡ ok (k, i)
      → Opened
          (pinned k i amount currency authority)
          s
          (open_intent key invoice_id amount currency authority s)
  unfolding open_intent
  open_intent-Opened {k} {i} h = elim (Bool-cases (serves_another s.authority (fields authority))) [
    | inl foreign ↦ rw (h, foreign) (refused foreign_authority)
    | inr free ↦
        rw (h, free)
          (find_or_open-Opened (pinned k i amount currency authority) s (lookup k s.intents) refl
            (serves_another-cases s.authority (fields authority) free))
  ]
