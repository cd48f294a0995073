-- ===== src/Tests/FlowTests.antt =====
-- Tests of the safe path from the invoice to the correction, and its theorems at concrete inputs.
use financial_engineering_sk.Prelude.{
  ◌≡◌, ◌↔◌, refl, false, List, [], ◌∷◌, none, some, string_eq, list_eq, ok, absent,
}
use financial_engineering_sk.Prelude.Int.{pos, negsuc, neg, ◌+ℤ◌, ◌-ℤ◌}
use financial_engineering_sk.Prelude.Text.{is_blank, is_alpha, is_upper}
use financial_engineering_sk.Money.{validated_currency}
use financial_engineering_sk.Ledger.Record.{Posting, empty_ledger, cash, fees}
use financial_engineering_sk.Ledger.Validate.{validated_posting, validated_loop, validated}
use financial_engineering_sk.Ledger.History.{empty_ledger-IsValid}
use financial_engineering_sk.Processor.Answers.{fake_api}
use financial_engineering_sk.Reconcile.Break.{delta}
use financial_engineering_sk.Reconcile.Lines.{Line}
use financial_engineering_sk.Reconcile.Rows.{Row, add_postings}
use financial_engineering_sk.Reconcile.Figures.{deltas_of}
use financial_engineering_sk.Reconcile.Compare.{compare_one, figures_break}
use financial_engineering_sk.Reconcile.Silence.{Agrees, silent_iff_agreed}
use financial_engineering_sk.SafeFlow.Correct.{correction_postings}
use financial_engineering_sk.SafeFlow.Correction.{correction_meets_the_report}
use financial_engineering_sk.SafeFlow.Keeps.{Good}
use financial_engineering_sk.SafeFlow.Capture.{recover}
use financial_engineering_sk.SafeFlow.Recovery.{recovery_moves_no_money}
use financial_engineering_sk.Tests.Data.{mine, first_flow, euro}

first_flow-Good : Good first_flow.store
first_flow-Good = record { ledger = empty_ledger-IsValid; pins = record { pins = tt; keys = tt } }

-- The report says that the fee is 0.40 EUR; the ledger holds 0.36 EUR.
abbrev reported : Line
reported = record {
  charge_id = "ch_1";
  batch_id = "b1";
  currency = "EUR";
  gross_minor = pos 1200;
  fee_minor = pos 40;
  net_minor = pos 1160;
}

abbrev held_row : Row
held_row = record {
  gross = pos 1200;
  fee = pos 36;
  net = pos 1164;
  currencies = "EUR" ∷ [];
  charge_ids = "ch_1" ∷ [];
  batch_ids = "b1" ∷ [];
  settlement_nets = pos 1164 ∷ [];
}

abbrev correcting : List Posting
correcting = euro cash (negsuc 3) ∷ euro fees (pos 4) ∷ []

correction_is_posted :
    validated (correction_postings (figures_break "st_1" reported held_row false []))
    ≡ ok correcting
unfolding correction_postings figures_break deltas_of delta neg ◌-ℤ◌ ◌+ℤ◌ validated validated_loop
    validated_posting validated_currency is_blank is_alpha is_upper
correction_is_posted = refl

correction_meets_the_report_example :
    ((add_postings held_row correcting).gross ≡ pos 1200)
    × (((add_postings held_row correcting).fee ≡ pos 40)
        × ((add_postings held_row correcting).net ≡ pos 1160))
correction_meets_the_report_example =
    correction_meets_the_report "st_1" reported held_row false [] correcting correction_is_posted

silent_iff_agreed_example :
    (compare_one empty_ledger "st_1" (some reported) (some held_row) ≡ none)
    ↔ Agrees reported held_row
silent_iff_agreed_example = silent_iff_agreed empty_ledger "st_1" reported held_row

recovery_moves_no_money_example :
    let f' = (recover mine fake_api absent first_flow).1 in
    (f'.processor.charges ≡ first_flow.processor.charges)
    × ((f'.processor.settlements ≡ first_flow.processor.settlements) × Good f'.store)
recovery_moves_no_money_example = recovery_moves_no_money mine absent first_flow first_flow-Good
