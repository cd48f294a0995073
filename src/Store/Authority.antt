-- ===== src/Store/Authority.antt =====
-- `Store.open_intent`: the authority of a book, and decisions that are asked for again.
use financial_engineering_sk.Prelude.{
  ◌≡◌, ◌≢◌, ◌⊎◌, refl, sym, ap, ◌∙◌, subst, List, [], ◌∷◌, some, String, string_eq, int_eq, pair_eq,
  list_eq, eq_test, ne_test, Result, ok, err, intent_mismatch, All, inl, inr, ok-injective, err≢ok,
}
use financial_engineering_sk.Prelude.Dict.{
  Dict, lookup, UniqueKeys, insert-UniqueKeys, insert-All, lookup-All, lookup-insert_self,
}
use financial_engineering_sk.Prelude.Int.{ℤ}
use financial_engineering_sk.Value.{Value}
use financial_engineering_sk.Money.{AuthorityScope, fields}
use financial_engineering_sk.Store.Record.{Intent, authority_of, binding, pinned, Store}
use financial_engineering_sk.Store.Intents.{
  Opened, refused, held, opened, open_intent_refused, open_intent-Opened, serves_mine,
}
use financial_engineering_sk.Store.{checked_intent, find_or_open, open_intent}

-- An intent is filed under its key, and pinned to the authority that the book serves.
abbrev pub IsPinned : List String → String × Intent → Type 0
IsPinned serving (key, intent) = (intent.key ≡ key) × (authority_of intent ≡ serving)

pub record HasOneAuthority (s : Store) : Type 0 where
  pub pins : All (IsPinned s.authority) s.intents
  pub keys : UniqueKeys s.intents

-- With one authority held, another one has no intent on file and gets none.
cons≢nil : {x : String} {xs : List String} → x ∷ xs ≡ [] → ⊥
cons≢nil h = cc

no_pins_on_nothing : (intents : Dict String Intent) → All (IsPinned []) intents → intents ≡ []
no_pins_on_nothing [] h = refl
no_pins_on_nothing (e ∷ intents) h = absurd (cons≢nil h.0.1)

pins_carry_over :
    (s : Store) (wanted : List String)
    → All (IsPinned s.authority) s.intents
    → (s.authority ≡ []) ⊎ (s.authority ≡ wanted)
    → All (IsPinned wanted) s.intents
pins_carry_over s wanted pins (inr same) =
    subst (λ (f : List String). All (IsPinned f) s.intents) same pins
pins_carry_over s wanted pins (inl nobody) =
    let none_filed =
      no_pins_on_nothing s.intents
        (subst (λ (f : List String). All (IsPinned f) s.intents) nobody pins) in
    subst (λ (d : Dict String Intent). All (IsPinned wanted) d) (sym none_filed) tt

Opened-HasOneAuthority :
    (wanted : Intent) (s : Store) {r : Result Intent × Store}
    → Opened wanted s r
    → HasOneAuthority s
    → HasOneAuthority r.1
Opened-HasOneAuthority wanted s (refused e) h = h
Opened-HasOneAuthority wanted s (held i found same) h = h
Opened-HasOneAuthority wanted s (opened missing free) h = record {
  pins =
      insert-All (IsPinned (authority_of wanted)) wanted.key wanted s.intents (refl, refl)
        (pins_carry_over s (authority_of wanted) h.pins free);
  keys = insert-UniqueKeys wanted.key wanted s.intents h.keys;
}

Opened-found :
    (wanted : Intent) (s : Store) {r : Result Intent × Store} {i : Intent}
    → Opened wanted s r
    → HasOneAuthority s
    → r.0 ≡ ok i
    → (lookup wanted.key r.1.intents ≡ some i)
      × (r.1.authority ≡ authority_of wanted)
      × (binding i ≡ binding wanted)
Opened-found wanted s (refused e) h q = absurd (err≢ok q)
Opened-found wanted s (held j found same) h q =
    let j_path = ok-injective q in
    let pin : IsPinned s.authority (wanted.key, j) =
      lookup-All (IsPinned s.authority) wanted.key j s.intents h.pins found in
    (
      found ∙ ap some j_path,
      sym pin.1 ∙ ap (λ (b : (String × (ℤ × String)) × List String). b.1) same,
      ap binding (sym j_path) ∙ same,
    )
Opened-found wanted s (opened missing free) h q =
    let w_path = ok-injective q in
    (lookup-insert_self wanted.key wanted s.intents ∙ ap some w_path, refl, ap binding (sym w_path))

module _ (key invoice_id : Value) (amount : ℤ) (currency : String) (authority : AuthorityScope)
    (s : Store) where
  -- Opening an intent keeps the book to one authority: every intent on file is pinned to the
  -- authority that the book serves and filed under its own key, whatever the call returned.
  pub open_intent-HasOneAuthority :
      HasOneAuthority s → HasOneAuthority (open_intent key invoice_id amount currency authority s).1
  open_intent-HasOneAuthority h = go (checked_intent key invoice_id authority) refl
    where
      go :
          (r : Result (String × String))
          → checked_intent key invoice_id authority ≡ r
          → HasOneAuthority (open_intent key invoice_id amount currency authority s).1
      go (err e) q = rw (open_intent_refused key invoice_id amount currency authority s q) h
      go (ok (k, i)) q =
          Opened-HasOneAuthority (pinned k i amount currency authority) s
            (open_intent-Opened key invoice_id amount currency authority s q) h

  module _ {k i : String} (well_formed : checked_intent key invoice_id authority ≡ ok (k, i)) where
    open_intent_present :
        {j : Intent}
        → lookup k s.intents ≡ some j
        → s.authority ≡ fields authority
        → open_intent key invoice_id amount currency authority s
          ≡ find_or_open (pinned k i amount currency authority) (some j) s
    unfolding open_intent
    open_intent_present found mine =
        rw (well_formed, serves_mine s.authority (fields authority) mine, found) refl

    -- The same decision again, on a book that has it: the intent on file, and nothing changes.
    open_intent_again :
        {j : Intent}
        → lookup k s.intents ≡ some j
        → s.authority ≡ fields authority
        → binding j ≡ binding (pinned k i amount currency authority)
        → open_intent key invoice_id amount currency authority s ≡ (ok j, s)
    unfolding find_or_open
    open_intent_again {j} found mine same =
        open_intent_present found mine
        ∙ rw (eq_test (binding j) (binding (pinned k i amount currency authority)) same) refl

    -- Another decision under the key, on a book that has it: refused, and nothing changes.
    open_intent_other :
        {j : Intent}
        → lookup k s.intents ≡ some j
        → s.authority ≡ fields authority
        → binding j ≢ binding (pinned k i amount currency authority)
        → open_intent key invoice_id amount currency authority s ≡ (err intent_mismatch, s)
    unfolding find_or_open
    open_intent_other {j} found mine other =
        open_intent_present found mine
        ∙ rw (ne_test (binding j) (binding (pinned k i amount currency authority)) other) refl

-- A replayed decision is answered by the intent on file: after a call that returned an intent,
-- the same call again returns it and changes nothing.
pub replayed_decision :
    (key invoice_id : Value) (amount : ℤ) (currency : String) (authority : AuthorityScope)
    (s : Store) (j : Intent)
    → HasOneAuthority s
    → (open_intent key invoice_id amount currency authority s).0 ≡ ok j
    → open_intent key invoice_id amount currency authority
        (open_intent key invoice_id amount currency authority s).1
      ≡ (ok j, (open_intent key invoice_id amount currency authority s).1)
replayed_decision key invoice_id amount currency authority s j h q =
    go (checked_intent key invoice_id authority) refl
  where
    go :
        (r : Result (String × String))
        → checked_intent key invoice_id authority ≡ r
        → open_intent key invoice_id amount currency authority
            (open_intent key invoice_id amount currency authority s).1
          ≡ (ok j, (open_intent key invoice_id amount currency authority s).1)
    go (err e) c = absurd (
        err≢ok (
          ap (λ (r : Result Intent × Store). r.0)
            (sym (open_intent_refused key invoice_id amount currency authority s c))
          ∙ q))
    go (ok (k, i)) c =
        let (found, mine, same) =
          Opened-found (pinned k i amount currency authority) s
            (open_intent-Opened key invoice_id amount currency authority s c) h q in
        open_intent_again key invoice_id amount currency authority
          (open_intent key invoice_id amount currency authority s).1 c found mine same

-- One key, one decision: after a call that returned an intent, a call of the same authority with
-- the same key and another invoice, amount or currency is refused and changes nothing.
pub changed_decision_refused :
    (key invoice_id invoice_id' : Value) (amount amount' : ℤ) (currency currency' : String)
    (authority : AuthorityScope) (s : Store) (j : Intent) (k i i' : String)
    → HasOneAuthority s
    → checked_intent key invoice_id authority ≡ ok (k, i)
    → checked_intent key invoice_id' authority ≡ ok (k, i')
    → (open_intent key invoice_id amount currency authority s).0 ≡ ok j
    → ◌≢◌ {A = String × (ℤ × String)} (i, (amount, currency)) (i', (amount', currency'))
    → open_intent key invoice_id' amount' currency' authority
        (open_intent key invoice_id amount currency authority s).1
      ≡ (err intent_mismatch, (open_intent key invoice_id amount currency authority s).1)
changed_decision_refused key invoice_id invoice_id' amount amount' currency currency' authority s j
      k i i' h c c' q ne =
    let (found, mine, same) =
      Opened-found (pinned k i amount currency authority) s
        (open_intent-Opened key invoice_id amount currency authority s c) h q in
    open_intent_other key invoice_id' amount' currency' authority
      (open_intent key invoice_id amount currency authority s).1 c' found mine
      (λ p. ne (ap (λ (b : (String × (ℤ × String)) × List String). b.0) (sym same ∙ p)))
