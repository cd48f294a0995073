-- ===== src/Tests/LedgerTests.antt =====
-- Tests of the ledger, and the ledger's theorems at concrete calls.
use financial_engineering_sk.Prelude.{
  ◌≡◌, ◌≢◌, ◌↔◌, refl, true, false, List, [], ◌∷◌, ◌++◌, none, String, ok, err, unbalanced,
  effect_conflict, All, map, ne_sound,
}
use financial_engineering_sk.Prelude.Int.{ℤ, pos, negsuc, ◌+ℤ◌}
use financial_engineering_sk.Prelude.Decimal.{decimal}
use financial_engineering_sk.Prelude.Text.{is_blank, is_alpha, is_upper}
use financial_engineering_sk.Prelude.{run_hook}
use financial_engineering_sk.Money.{validated_identifier, validated_currency}
use financial_engineering_sk.Ledger.Record.{
  Entry, empty_ledger, receivable, revenue, fingerprint_eq,
}
use financial_engineering_sk.Ledger.Validate.{validated_posting, validated_loop, validated}
use financial_engineering_sk.Ledger.Validate.Balanced.{validated_iff, as_arg, IsPostingSet}
use financial_engineering_sk.Ledger.Queries.{
  entry_for_effect, balance, posting_total, trial_balance,
}
use financial_engineering_sk.Ledger.Commit.{
  validated_attribution, checked, new_entry, append_entry, commit_effect, commit_once,
}
use financial_engineering_sk.Ledger.Commit.Invariant.{IsValid, commit_once-IsValid}
use financial_engineering_sk.Ledger.History.{
  replay, empty_ledger-IsValid, retry_applies_nothing, changed_content_refused, commit_once_atomic,
  replay_appends,
}
use financial_engineering_sk.Ledger.Books.{trial_balance_is_zero, commit_once-balance}
use financial_engineering_sk.Tests.Data.{
  capture_call, unbalanced_call, capture_entry, content, arg, euro,
}

-- The first capture is posted as the ledger's first entry.
first_capture : (commit_once (capture_call (pos 1200)) empty_ledger).0 ≡ ok (capture_entry, true)
unfolding commit_once checked commit_effect append_entry new_entry entry_for_effect validated
    validated_loop validated_posting validated_attribution validated_currency validated_identifier
    run_hook decimal ◌+ℤ◌ is_blank is_alpha is_upper
first_capture = refl

unbalanced_is_refused : (commit_once unbalanced_call empty_ledger).0 ≡ err unbalanced
unfolding commit_once checked validated validated_loop validated_posting validated_attribution
    validated_currency validated_identifier ◌+ℤ◌ is_blank is_alpha is_upper
unbalanced_is_refused = refl

capture_is_checked :
    (claimed : ℤ) → checked (capture_call claimed) ≡ ok ("capture:1", content claimed)
unfolding checked validated validated_loop validated_posting validated_attribution
    validated_currency validated_identifier ◌+ℤ◌ is_blank is_alpha is_upper
capture_is_checked claimed = refl

other_content : content (pos 900) ≢ content (pos 1200)
other_content = ne_sound (content (pos 900)) (content (pos 1200)) refl

retry_applies_nothing_example :
    commit_once
      (capture_call (pos 1200))
      (replay (unbalanced_call ∷ []) (commit_once (capture_call (pos 1200)) empty_ledger).1)
    ≡ (
      ok (capture_entry, false),
      replay (unbalanced_call ∷ []) (commit_once (capture_call (pos 1200)) empty_ledger).1,
    )
retry_applies_nothing_example =
    retry_applies_nothing (capture_call (pos 1200)) (capture_call (pos 1200)) (unbalanced_call ∷ [])
      empty_ledger capture_entry true first_capture refl

changed_content_refused_example :
    commit_once
      (capture_call (pos 900))
      (replay (unbalanced_call ∷ []) (commit_once (capture_call (pos 1200)) empty_ledger).1)
    ≡ (
      err effect_conflict,
      replay (unbalanced_call ∷ []) (commit_once (capture_call (pos 1200)) empty_ledger).1,
    )
changed_content_refused_example =
    changed_content_refused (capture_call (pos 1200)) (capture_call (pos 900))
      (unbalanced_call ∷ []) empty_ledger capture_entry true "capture:1" (content (pos 900))
      first_capture (capture_is_checked (pos 1200)) (capture_is_checked (pos 900)) other_content

commit_once_atomic_example : (commit_once unbalanced_call empty_ledger).1 ≡ empty_ledger
commit_once_atomic_example = commit_once_atomic unbalanced_call empty_ledger unbalanced_is_refused

replay_appends_example :
    (more : List Entry) × ((replay
        (capture_call (pos 1200) ∷ unbalanced_call ∷ [])
        empty_ledger).entries
      ≡ [] ++ more)
replay_appends_example =
    replay_appends (capture_call (pos 1200) ∷ unbalanced_call ∷ []) empty_ledger

trial_balance_is_zero_example :
    All
      (λ (t : String × ℤ). t.1 ≡ pos 0)
      (trial_balance (replay (capture_call (pos 1200) ∷ unbalanced_call ∷ []) empty_ledger))
trial_balance_is_zero_example =
    trial_balance_is_zero (capture_call (pos 1200) ∷ unbalanced_call ∷ [])

commit_once-IsValid_example : IsValid (commit_once (capture_call (pos 1200)) empty_ledger).1
commit_once-IsValid_example =
    commit_once-IsValid (capture_call (pos 1200)) empty_ledger empty_ledger-IsValid

commit_once-balance_example :
    balance receivable "EUR" none (commit_once (capture_call (pos 1200)) empty_ledger).1
    ≡ balance receivable "EUR" none empty_ledger
      +ℤ posting_total receivable "EUR" capture_entry.postings
commit_once-balance_example =
    commit_once-balance (capture_call (pos 1200)) empty_ledger capture_entry true receivable "EUR"
      none first_capture

validated_iff_example :
    (validated (arg receivable (pos 1200) ∷ arg revenue (negsuc 1199) ∷ [])
      ≡ ok (euro receivable (pos 1200) ∷ euro revenue (negsuc 1199) ∷ []))
    ↔ ((arg receivable (pos 1200) ∷ arg revenue (negsuc 1199) ∷ []
          ≡ map as_arg (euro receivable (pos 1200) ∷ euro revenue (negsuc 1199) ∷ []))
        × IsPostingSet (euro receivable (pos 1200) ∷ euro revenue (negsuc 1199) ∷ []))
validated_iff_example =
    validated_iff (arg receivable (pos 1200) ∷ arg revenue (negsuc 1199) ∷ [])
      (euro receivable (pos 1200) ∷ euro revenue (negsuc 1199) ∷ [])
