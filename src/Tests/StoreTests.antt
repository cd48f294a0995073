-- ===== src/Tests/StoreTests.antt =====
-- Tests of the store, and its theorems at concrete calls.
use financial_engineering_sk.Prelude.{
  ◌≡◌, ◌≢◌, refl, true, false, List, [], ◌∷◌, String, string_eq, list_eq, pair_eq, int_eq, ok, err,
  intent_mismatch, injected_failure, raises, absent, run_hook, ne_sound,
}
use financial_engineering_sk.Prelude.Decimal.{decimal}
use financial_engineering_sk.Prelude.Int.{ℤ, pos, ◌+ℤ◌}
use financial_engineering_sk.Prelude.Text.{is_blank, is_alpha, is_upper}
use financial_engineering_sk.Value.{str}
use financial_engineering_sk.Money.{validated_identifier, validated_currency}
use financial_engineering_sk.Ledger.Record.{empty_ledger}
use financial_engineering_sk.Ledger.Validate.{validated_posting, validated_loop, validated}
use financial_engineering_sk.Ledger.Queries.{entry_for_effect}
use financial_engineering_sk.Ledger.Commit.{
  validated_attribution, checked, new_entry, append_entry, commit_once,
  commit_effect as ledger_commit,
}
use financial_engineering_sk.Reconcile.Break.{BreakContent}
use financial_engineering_sk.Store.Record.{
  Intent, IntentUpdate, Store, BreakRecord, new_store, captured,
}
use financial_engineering_sk.Store.{
  checked_intent, find_or_open, open_intent, updated_intents, insert_all, commit_effect,
  applied_entry,
}
use financial_engineering_sk.Store.Authority.{
  HasOneAuthority, open_intent-HasOneAuthority, replayed_decision, changed_decision_refused,
}
use financial_engineering_sk.Store.Effects.{interrupted_commit_is_redone}
use financial_engineering_sk.Reconcile.Report.{structural, of_report}
use financial_engineering_sk.Tests.Data.{mine, capture_call, capture_entry, intent, one_intent}

key_is_well_formed :
    checked_intent (str "pay:inv_1:1") (str "inv_1") mine ≡ ok ("pay:inv_1:1", "inv_1")
unfolding checked_intent validated_identifier is_blank
key_is_well_formed = refl

intent_is_on_file :
    (open_intent (str "pay:inv_1:1") (str "inv_1") (pos 1200) "EUR" mine one_intent).0 ≡ ok intent
unfolding open_intent checked_intent validated_identifier is_blank find_or_open
intent_is_on_file = refl

new_store-HasOneAuthority : HasOneAuthority (new_store empty_ledger)
new_store-HasOneAuthority = record { pins = tt; keys = tt }

one_intent-HasOneAuthority : HasOneAuthority one_intent
one_intent-HasOneAuthority = record { pins = ((refl, refl), tt); keys = (refl, tt) }

open_intent-HasOneAuthority_example :
    HasOneAuthority
      (open_intent
        (str "pay:inv_1:1")
        (str "inv_1")
        (pos 1200)
        "EUR"
        mine
        (new_store empty_ledger)).1
open_intent-HasOneAuthority_example =
    open_intent-HasOneAuthority (str "pay:inv_1:1") (str "inv_1") (pos 1200) "EUR" mine
      (new_store empty_ledger) new_store-HasOneAuthority

replayed_decision_example :
    open_intent
      (str "pay:inv_1:1")
      (str "inv_1")
      (pos 1200)
      "EUR"
      mine
      (open_intent (str "pay:inv_1:1") (str "inv_1") (pos 1200) "EUR" mine one_intent).1
    ≡ (
      ok intent,
      (open_intent (str "pay:inv_1:1") (str "inv_1") (pos 1200) "EUR" mine one_intent).1,
    )
replayed_decision_example =
    replayed_decision (str "pay:inv_1:1") (str "inv_1") (pos 1200) "EUR" mine one_intent intent
      one_intent-HasOneAuthority intent_is_on_file

another_amount :
    ◌≢◌ {A = String × (ℤ × String)} ("inv_1", (pos 1200, "EUR")) ("inv_1", (pos 900, "EUR"))
another_amount = ne_sound _ _ refl

changed_decision_refused_example :
    open_intent
      (str "pay:inv_1:1")
      (str "inv_1")
      (pos 900)
      "EUR"
      mine
      (open_intent (str "pay:inv_1:1") (str "inv_1") (pos 1200) "EUR" mine one_intent).1
    ≡ (
      err intent_mismatch,
      (open_intent (str "pay:inv_1:1") (str "inv_1") (pos 1200) "EUR" mine one_intent).1,
    )
changed_decision_refused_example =
    changed_decision_refused (str "pay:inv_1:1") (str "inv_1") (str "inv_1") (pos 1200) (pos 900)
      "EUR" "EUR" mine one_intent intent "pay:inv_1:1" "inv_1" "inv_1" one_intent-HasOneAuthority
      key_is_well_formed key_is_well_formed intent_is_on_file another_amount

abbrev to_captured : List (String × IntentUpdate)
to_captured = ("pay:inv_1:1", record { state = captured; charge_id = "ch_1" }) ∷ []

abbrev captured_intent : Intent
captured_intent = record intent { state = captured; charge_id = "ch_1" }

intent_is_moved :
    updated_intents to_captured one_intent.intents ≡ ok (("pay:inv_1:1", captured_intent) ∷ [])
unfolding updated_intents
intent_is_moved = refl

capture_is_posted :
    (commit_once (capture_call (pos 1200)) one_intent.ledger).0 ≡ ok (capture_entry, true)
unfolding commit_once checked ledger_commit append_entry new_entry entry_for_effect validated
    validated_loop validated_posting validated_attribution validated_currency validated_identifier
    run_hook decimal ◌+ℤ◌ is_blank is_alpha is_upper
capture_is_posted = refl

interrupted_commit_is_redone_example :
    let (answer, s') =
      commit_effect (capture_call (pos 1200)) to_captured (raises injected_failure) one_intent in
    (answer ≡ err injected_failure)
    × (s' ≡ record one_intent {
      ledger = (commit_once (capture_call (pos 1200)) one_intent.ledger).1;
    })
    × (commit_effect (capture_call (pos 1200)) to_captured absent s' ≡ (
      ok (applied_entry (capture_entry, false)),
      record s' { intents = insert_all (("pay:inv_1:1", captured_intent) ∷ []) one_intent.intents },
    ))
interrupted_commit_is_redone_example =
    interrupted_commit_is_redone (capture_call (pos 1200)) to_captured
      (("pay:inv_1:1", captured_intent) ∷ []) one_intent injected_failure capture_entry true
      intent_is_moved capture_is_posted

-- A text that stands for the hash of a break.
abbrev kind_of : BreakContent → String
kind_of c = c.kind

abbrev closed_break : BreakRecord
closed_break = record {
  break_id = "amount_mismatch";
  brk = structural "amount_mismatch" (of_report (str "b1") (str "EUR")) [];
  is_open = false;
  entry_id = "e2";
  approved_by = "ana";
}

abbrev one_break : Store
one_break = record (new_store empty_ledger) { breaks = ("amount_mismatch", closed_break) ∷ [] }
