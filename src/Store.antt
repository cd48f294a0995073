-- ===== src/Store.antt =====
-- examples/payment-ledger-reconciliation/store.py: the shared state of all workers. The lock makes
-- each method one step.
pub mod Record
pub mod Intents
pub mod Authority
pub mod Effects
pub mod Breaks
use financial_engineering_sk.Prelude.{
  ◌≡◌, Bool, true, false, not, ◌&&◌, List, [], ◌∷◌, map, Option, none, some, String, ◌==◌,
  string_eq, int_eq, pair_eq, list_eq, if◌then◌else◌, Result, ok, err, Exec, pure, raise, raise_if,
  lift, gets, modify, ◌>>=◌, ◌>>◌, and_then, foreign_authority, intent_mismatch, key_error, Hook,
  run_hook, sorted, by_key, find,
}
use financial_engineering_sk.Prelude.Dict.{Dict, lookup, insert, set_default}
use financial_engineering_sk.Prelude.Int.{ℤ}
use financial_engineering_sk.Value.{Value, str}
use financial_engineering_sk.Money.{AuthorityScope, fields, validated_identifier}
use financial_engineering_sk.Ledger.Record.{Entry, Ledger, Fingerprint}
use financial_engineering_sk.Ledger.Queries.{entry_for_effect}
use financial_engineering_sk.Ledger.Commit.{CommitArgs, commit_once}
use financial_engineering_sk.Reconcile.Break.{Break, BreakContent, break_id}
use financial_engineering_sk.Store.Record.{
  Applied, IntentState, Intent, authority_of, binding, pinned, closed, state_beq, BreakRecord,
  Store, IntentUpdate,
}

-- ---- intents

-- Everything that `open_intent` refuses before the book is claimed.
unfoldable pub checked_intent : Value → Value → AuthorityScope → Result (String × String)
checked_intent key invoice_id authority = and_then (validated_identifier key) λ k.
    and_then (validated_identifier invoice_id) λ i.
      and_then (validated_identifier (str authority.provider)) λ _.
        and_then (validated_identifier (str authority.account)) λ _.
          and_then (validated_identifier (str authority.region))
            λ _. and_then (validated_identifier (str authority.backend_id)) λ _. ok (k, i)

-- self._authority and self._authority != authority.fields()
abbrev serves_another : List String → List String → Bool
serves_another [] wanted = false
serves_another (f ∷ fs) wanted = not (f ∷ fs == wanted)

unfoldable pub find_or_open : Intent → Option Intent → Exec Store Intent
find_or_open wanted none s = (
  ok wanted,
  record s { intents = insert wanted.key wanted s.intents; authority = authority_of wanted },
)
find_or_open wanted (some intent) s =
    if binding intent == binding wanted then (ok intent, s) else (err intent_mismatch, s)

unfoldable pub open_intent : Value → Value → ℤ → String → AuthorityScope → Exec Store Intent
open_intent key invoice_id amount_minor currency authority = do
  (k, i) ← lift (checked_intent key invoice_id authority)
  held ← gets (λ (s : Store). s.authority)
  raise_if (serves_another held (fields authority)) foreign_authority
  intent ← gets (λ (s : Store). lookup k s.intents)
  find_or_open (pinned k i amount_minor currency authority) intent

unfoldable pub get_intent : String → Store → Option Intent
get_intent key s = lookup key s.intents

-- `Store.intents()`: in the order of their keys
unfoldable pub all_intents : Store → List Intent
all_intents s = map (λ (e : String × Intent). e.1) (sorted by_key s.intents)

-- intent.charge_id and intent.charge_id == charge_id
abbrev is_for_charge : String → Intent → Bool
is_for_charge charge_id intent = not (intent.charge_id == "") && intent.charge_id == charge_id

unfoldable pub intent_for_charge : String → Store → Option Intent
unfolding all_intents
intent_for_charge charge_id s = find (is_for_charge charge_id) (all_intents s)

-- ---- effects

-- `Store.effect`
unfoldable pub effect : String → Store → Option Applied
effect effect_id s = elim (entry_for_effect effect_id s.ledger) [
  | none ↦ none
  | some entry ↦ some (record {
    effect_id = effect_id;
    entry_id = entry.entry_id;
    fields = entry.fingerprint;
    applied = false;
  })
]

abbrev update_intent : IntentUpdate → Intent → Intent
update_intent u intent = record intent { state = u.state; charge_id = u.charge_id }

-- The intents as they will be, or a `KeyError` for one that the store does not hold.
unfoldable pub updated_intents :
    List (String × IntentUpdate) → Dict String Intent → Result (List (String × Intent))
updated_intents [] intents = ok []
updated_intents ((key, u) ∷ updates) intents = elim (lookup key intents) [
  | none ↦ err key_error
  | some intent ↦
      and_then (updated_intents updates intents) (λ rest. ok ((key, update_intent u intent) ∷ rest))
]

-- dict.update
unfoldable pub insert_all : List (String × Intent) → Dict String Intent → Dict String Intent
insert_all [] intents = intents
insert_all ((key, intent) ∷ updated) intents = insert_all updated (insert key intent intents)

abbrev pub on_ledger : {A : Type 0} → Exec Ledger A → Exec Store A
on_ledger m s = let (r, l) = m s.ledger in (r, record s { ledger = l })

abbrev pub applied_entry : Entry × Bool → Applied
applied_entry (entry, applied) = record {
  effect_id = entry.effect_id;
  entry_id = entry.entry_id;
  fields = entry.fingerprint;
  applied = applied;
}

unfoldable pub commit_effect : CommitArgs → List (String × IntentUpdate) → Hook → Exec Store Applied
commit_effect a updates after_entry = do
  intents ← gets (λ (s : Store). s.intents)
  updated ← lift (updated_intents updates intents)
  entry ← on_ledger (commit_once a)
  run_hook after_entry
  modify (λ (s : Store). record s { intents = insert_all updated s.intents })
  pure (applied_entry entry)

-- ---- open breaks
module _ (digest : BreakContent → String) where
  abbrev open_record : Break → BreakRecord
  open_record b = record {
    break_id = break_id digest b;
    brk = b;
    is_open = true;
    entry_id = "";
    approved_by = "";
  }

  unfoldable pub record_breaks : List Break → Store → Store
  record_breaks [] s = s
  record_breaks (b ∷ breaks) s =
      record_breaks breaks
        (record s { breaks = set_default (break_id digest b) (open_record b) s.breaks })

unfoldable pub break_record : String → Store → Option BreakRecord
break_record id s = lookup id s.breaks

abbrev open_only : List (String × BreakRecord) → List Break
open_only [] = []
open_only ((id, r) ∷ rs) = let rest = open_only rs in if r.is_open then r.brk ∷ rest else rest

unfoldable pub open_breaks : Store → List Break
open_breaks s = open_only (sorted by_key s.breaks)

unfoldable pub close_break : String → String → String → Exec Store BreakRecord
close_break id entry_id approved_by s = elim (lookup id s.breaks) [
  | none ↦ (err key_error, s)
  | some r ↦
      let r' = closed r entry_id approved_by in (ok r', record s { breaks = insert id r' s.breaks })
]
