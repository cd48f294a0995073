-- ===== src/Tests/RunTests.antt =====
-- The safe path run from end to end: three workers pay one invoice, its settlement is announced
-- twice, and the report agrees.
use financial_engineering_sk.Prelude.{
  ◌≡◌, refl, List, [], ◌∷◌, String, Result, ok, absent, string_eq,
}
use financial_engineering_sk.SafeFlow.Pay.{
  pay_invoice, bound_if_known, pay_opened, pay_pending, ask_if_known, finish, resolve,
  resolve_answer, resolve_or_give_up, send, send_if_unknown,
}
use financial_engineering_sk.Money.{
  validated_component, validated_amount, validated_currency, validated_identifier, describe,
}
use financial_engineering_sk.Prelude.Text.{is_alpha, is_upper, is_blank}
use financial_engineering_sk.Store.{
  get_intent, open_intent, checked_intent, find_or_open, insert_all, updated_intents,
  intent_for_charge, all_intents,
}
use financial_engineering_sk.Prelude.Decimal.{decimal}
use financial_engineering_sk.Ledger.Commit.{
  append_entry, checked, commit_effect, commit_once, new_entry, validated_attribution,
}
use financial_engineering_sk.Ledger.Queries.{entry_for_effect}
use financial_engineering_sk.Ledger.Validate.{validated, validated_loop, validated_posting}
use financial_engineering_sk.Prelude.{run_hook}
use financial_engineering_sk.Prelude.Int.{neg, ◌+ℤ◌, ◌-ℤ◌, abs}
use financial_engineering_sk.Processor.Answers.{fake_api}
use financial_engineering_sk.Processor.State.{fee_minor}
use financial_engineering_sk.Processor.{
  addressed_to_me, answer_charge, charge, charge_arrived, charge_locked, charge_new,
  checked_request, count_charges, get_charge, lookup_charge, charge_count, new_charge,
  settlement_for_charge, settle, settle_locked, settle_new, new_settlement,
}
use financial_engineering_sk.SafeFlow.Answers.{
  captured_fields, describes, validated_charge, settlement_refusal, settlement_names,
  settlement_figures, settlement_sums,
}
use financial_engineering_sk.SafeFlow.Capture.{capture, capture_args}
use financial_engineering_sk.SafeFlow.Worker.{bound, effect_id, stored_request}
use financial_engineering_sk.SafeFlow.Paid.{pay_all}
use financial_engineering_sk.SafeFlow.Webhook.{
  handle_webhook, read_event, handle_charge, read_answer, charge_fields, find_captured,
  settle_charge, apply_settlement, settlement_args,
}
use financial_engineering_sk.Reconcile.Compare.{
  reconcile, reconcile_lines, checked_total, compared_names, compare_all, compare_one,
  figures_break, report_only,
}
use financial_engineering_sk.Reconcile.Figures.{
  wrong_names, any_delta, deltas_of, independent_stake, amount_at_stake, say_figures,
}
use financial_engineering_sk.Reconcile.Report.{envelope, stake}
use financial_engineering_sk.Reconcile.ReadLines.{report_lines}
use financial_engineering_sk.Reconcile.Total.{total_break}
use financial_engineering_sk.Reconcile.Rows.{ledger_settlements}
use financial_engineering_sk.Store.{commit_effect as store_commit}
use financial_engineering_sk.Prelude.Int.{ℤ, pos}
use financial_engineering_sk.Processor.State.{FakeProcessor}
use financial_engineering_sk.Value.{Value, str, int, dict, list, field, end, cons, nil}
use financial_engineering_sk.Reconcile.Agreement.{
  silent_report_covers_ledger, silent_report_is_covered,
}
use financial_engineering_sk.Reconcile.Silence.{Agrees}
use financial_engineering_sk.Reconcile.Rows.{Row}
use financial_engineering_sk.Reconcile.Lines.{Line}
use financial_engineering_sk.Prelude.Dict.{lookup}
use financial_engineering_sk.Value.{Fields}
use financial_engineering_sk.Prelude.{some}
use financial_engineering_sk.Reconcile.Break.{Break}
use financial_engineering_sk.SafeFlow.Worker.{Flow}
use financial_engineering_sk.SafeFlow.Answers.{Verdict, applied, duplicate}
use financial_engineering_sk.Tests.Data.{mine, first_flow, attempts, delivery}

abbrev paid : Flow FakeProcessor
paid = pay_all "inv_1" attempts first_flow

-- The processor settles the charge in the batch "b1".
abbrev settled : Flow FakeProcessor
settled = record paid { processor = (settle (str "ch_1") (str "b1") paid.processor).1 }

abbrev announced : Result Verdict × Flow FakeProcessor
announced = handle_webhook mine fake_api delivery absent absent settled

abbrev again : Result Verdict × Flow FakeProcessor
again = handle_webhook mine fake_api delivery absent absent announced.1

-- A report of the batch "b1" with one line, of this fee and this net.
abbrev report_fields : ℤ → ℤ → Fields
report_fields fee net = field "batch_id" (str "b1") (
    field "currency" (str "EUR") (
      field "total_net_minor" (int net) (
        field "lines"
          (list (
            cons
              (dict (
                field "settlement_id" (str "st_1") (
                  field "charge_id" (str "ch_1") (
                    field "gross_minor" (int (pos 1200))
                      (field "fee_minor" (int fee) (field "net_minor" (int net) end))))))
              nil))
          end)))

abbrev report : ℤ → ℤ → Value
report fee net = dict (report_fields fee net)

paid_once : charge_count "inv_1" paid.processor ≡ 1
unfolding pay_invoice validated_amount validated_currency is_alpha is_upper bound_if_known
    get_intent open_intent checked_intent validated_identifier is_blank decimal find_or_open
    pay_opened pay_pending append_entry checked commit_effect commit_once new_entry
    validated_attribution entry_for_effect validated validated_loop validated_posting describe
    run_hook neg ◌+ℤ◌ ◌-ℤ◌ fake_api fee_minor addressed_to_me answer_charge charge charge_arrived
    charge_locked charge_new checked_request count_charges get_charge lookup_charge charge_count
    new_charge settlement_for_charge settle settle_locked settle_new new_settlement captured_fields
    describes validated_charge capture capture_args ask_if_known finish resolve resolve_answer
    resolve_or_give_up send send_if_unknown bound effect_id stored_request insert_all
    updated_intents pay_all store_commit
paid_once = refl

first_delivery : announced.0 ≡ ok applied
unfolding pay_invoice validated_amount validated_currency is_alpha is_upper bound_if_known
    get_intent open_intent checked_intent validated_identifier is_blank decimal find_or_open
    pay_opened pay_pending append_entry checked commit_effect commit_once new_entry
    validated_attribution entry_for_effect validated validated_loop validated_posting describe
    run_hook neg ◌+ℤ◌ ◌-ℤ◌ fake_api fee_minor addressed_to_me answer_charge charge charge_arrived
    charge_locked charge_new checked_request count_charges get_charge lookup_charge charge_count
    new_charge settlement_for_charge settle settle_locked settle_new new_settlement captured_fields
    describes validated_charge capture capture_args ask_if_known finish resolve resolve_answer
    resolve_or_give_up send send_if_unknown bound effect_id stored_request insert_all
    updated_intents pay_all handle_webhook read_event handle_charge read_answer charge_fields
    find_captured settle_charge apply_settlement settlement_args settlement_refusal settlement_names
    settlement_figures settlement_sums intent_for_charge all_intents validated_component
    store_commit
first_delivery = refl

second_delivery : again.0 ≡ ok duplicate
unfolding pay_invoice validated_amount validated_currency is_alpha is_upper bound_if_known
    get_intent open_intent checked_intent validated_identifier is_blank decimal find_or_open
    pay_opened pay_pending append_entry checked commit_effect commit_once new_entry
    validated_attribution entry_for_effect validated validated_loop validated_posting describe
    run_hook neg ◌+ℤ◌ ◌-ℤ◌ fake_api fee_minor addressed_to_me answer_charge charge charge_arrived
    charge_locked charge_new checked_request count_charges get_charge lookup_charge charge_count
    new_charge settlement_for_charge settle settle_locked settle_new new_settlement captured_fields
    describes validated_charge capture capture_args ask_if_known finish resolve resolve_answer
    resolve_or_give_up send send_if_unknown bound effect_id stored_request insert_all
    updated_intents pay_all handle_webhook read_event handle_charge read_answer charge_fields
    find_captured settle_charge apply_settlement settlement_args settlement_refusal settlement_names
    settlement_figures settlement_sums intent_for_charge all_intents validated_component
    store_commit
second_delivery = refl

abbrev kinds : List Break → List (String × List (String × ℤ))
kinds [] = []
kinds (b ∷ bs) = (b.kind, b.at_stake) ∷ kinds bs

good_report_is_silent : reconcile (report (pos 36) (pos 1164)) announced.1.store.ledger ≡ []
unfolding pay_invoice validated_amount validated_currency is_alpha is_upper bound_if_known
    get_intent open_intent checked_intent validated_identifier is_blank decimal find_or_open
    pay_opened pay_pending append_entry checked commit_effect commit_once new_entry
    validated_attribution entry_for_effect validated validated_loop validated_posting describe
    run_hook neg ◌+ℤ◌ ◌-ℤ◌ fake_api fee_minor addressed_to_me answer_charge charge charge_arrived
    charge_locked charge_new checked_request count_charges get_charge lookup_charge charge_count
    new_charge settlement_for_charge settle settle_locked settle_new new_settlement captured_fields
    describes validated_charge capture capture_args ask_if_known finish resolve resolve_answer
    resolve_or_give_up send send_if_unknown bound effect_id stored_request insert_all
    updated_intents pay_all handle_webhook read_event handle_charge read_answer charge_fields
    find_captured settle_charge apply_settlement settlement_args settlement_refusal settlement_names
    settlement_figures settlement_sums intent_for_charge all_intents reconcile reconcile_lines
    checked_total compared_names compare_all compare_one wrong_names any_delta deltas_of envelope
    report_lines total_break ledger_settlements stake independent_stake amount_at_stake abs
    say_figures figures_break report_only validated_component store_commit
good_report_is_silent = refl

other_fee_is_reported :
    kinds (reconcile (report (pos 40) (pos 1160)) announced.1.store.ledger)
    ≡ ("amount_mismatch", ("EUR", pos 4) ∷ []) ∷ []
unfolding pay_invoice validated_amount validated_currency is_alpha is_upper bound_if_known
    get_intent open_intent checked_intent validated_identifier is_blank decimal find_or_open
    pay_opened pay_pending append_entry checked commit_effect commit_once new_entry
    validated_attribution entry_for_effect validated validated_loop validated_posting describe
    run_hook neg ◌+ℤ◌ ◌-ℤ◌ fake_api fee_minor addressed_to_me answer_charge charge charge_arrived
    charge_locked charge_new checked_request count_charges get_charge lookup_charge charge_count
    new_charge settlement_for_charge settle settle_locked settle_new new_settlement captured_fields
    describes validated_charge capture capture_args ask_if_known finish resolve resolve_answer
    resolve_or_give_up send send_if_unknown bound effect_id stored_request insert_all
    updated_intents pay_all handle_webhook read_event handle_charge read_answer charge_fields
    find_captured settle_charge apply_settlement settlement_args settlement_refusal settlement_names
    settlement_figures settlement_sums intent_for_charge all_intents reconcile reconcile_lines
    checked_total compared_names compare_all compare_one wrong_names any_delta deltas_of envelope
    report_lines total_break ledger_settlements stake independent_stake amount_at_stake abs
    say_figures figures_break report_only validated_component store_commit
other_fee_is_reported = refl

abbrev posted_row : Row
posted_row = record {
  gross = pos 1200;
  fee = pos 36;
  net = pos 1164;
  currencies = "EUR" ∷ [];
  charge_ids = "ch_1" ∷ [];
  batch_ids = "b1" ∷ [];
  settlement_nets = pos 1164 ∷ [];
}

abbrev posted_line : Line
posted_line = record {
  charge_id = "ch_1";
  batch_id = "b1";
  currency = "EUR";
  gross_minor = pos 1200;
  fee_minor = pos 36;
  net_minor = pos 1164;
}

row_is_posted : lookup "st_1" (ledger_settlements announced.1.store.ledger) ≡ some posted_row
unfolding pay_invoice validated_amount validated_currency is_alpha is_upper bound_if_known
    get_intent open_intent checked_intent validated_identifier is_blank decimal find_or_open
    pay_opened pay_pending append_entry checked commit_effect commit_once new_entry
    validated_attribution entry_for_effect validated validated_loop validated_posting describe
    run_hook neg ◌+ℤ◌ ◌-ℤ◌ fake_api fee_minor addressed_to_me answer_charge charge charge_arrived
    charge_locked charge_new checked_request count_charges get_charge lookup_charge charge_count
    new_charge settlement_for_charge settle settle_locked settle_new new_settlement captured_fields
    describes validated_charge capture capture_args ask_if_known finish resolve resolve_answer
    resolve_or_give_up send send_if_unknown bound effect_id stored_request insert_all
    updated_intents pay_all handle_webhook read_event handle_charge read_answer charge_fields
    find_captured settle_charge apply_settlement settlement_args settlement_refusal settlement_names
    settlement_figures settlement_sums intent_for_charge all_intents reconcile reconcile_lines
    checked_total compared_names compare_all compare_one wrong_names any_delta deltas_of envelope
    report_lines total_break ledger_settlements stake independent_stake amount_at_stake abs
    say_figures figures_break report_only validated_component store_commit
row_is_posted = refl

line_is_read :
    lookup "st_1" (report_lines (report_fields (pos 36) (pos 1164))).lines ≡ some posted_line
unfolding pay_invoice validated_amount validated_currency is_alpha is_upper bound_if_known
    get_intent open_intent checked_intent validated_identifier is_blank decimal find_or_open
    pay_opened pay_pending append_entry checked commit_effect commit_once new_entry
    validated_attribution entry_for_effect validated validated_loop validated_posting describe
    run_hook neg ◌+ℤ◌ ◌-ℤ◌ fake_api fee_minor addressed_to_me answer_charge charge charge_arrived
    charge_locked charge_new checked_request count_charges get_charge lookup_charge charge_count
    new_charge settlement_for_charge settle settle_locked settle_new new_settlement captured_fields
    describes validated_charge capture capture_args ask_if_known finish resolve resolve_answer
    resolve_or_give_up send send_if_unknown bound effect_id stored_request insert_all
    updated_intents pay_all handle_webhook read_event handle_charge read_answer charge_fields
    find_captured settle_charge apply_settlement settlement_args settlement_refusal settlement_names
    settlement_figures settlement_sums intent_for_charge all_intents reconcile reconcile_lines
    checked_total compared_names compare_all compare_one wrong_names any_delta deltas_of envelope
    report_lines total_break ledger_settlements stake independent_stake amount_at_stake abs
    say_figures figures_break report_only validated_component store_commit
line_is_read = refl

silent_report_covers_ledger_example :
    (line : Line) × (lookup "st_1" (report_lines (report_fields (pos 36) (pos 1164))).lines
      ≡ some line)
    × Agrees line posted_row
silent_report_covers_ledger_example =
    silent_report_covers_ledger (report_fields (pos 36) (pos 1164)) announced.1.store.ledger "st_1"
      posted_row good_report_is_silent row_is_posted

silent_report_is_covered_example :
    (row : Row) × (lookup "st_1" (ledger_settlements announced.1.store.ledger) ≡ some row)
    × Agrees posted_line row
silent_report_is_covered_example =
    silent_report_is_covered (report_fields (pos 36) (pos 1164)) announced.1.store.ledger "st_1"
      posted_line good_report_is_silent line_is_read
