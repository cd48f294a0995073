-- ===== src/Tests/ProcessorTests.antt =====
-- Tests of the processor, and its theorems at concrete requests.
use financial_engineering_sk.Prelude.{◌≡◌, ◌⊎◌, refl, [], ◌∷◌, none, ok, ◌≤◌, arith, string_eq}
use financial_engineering_sk.Prelude.Dict.{lookup}
use financial_engineering_sk.Prelude.Int.{pos, neg, ◌+ℤ◌, ◌-ℤ◌}
use financial_engineering_sk.Prelude.Decimal.{decimal}
use financial_engineering_sk.Prelude.Text.{is_blank, is_alpha, is_upper}
use financial_engineering_sk.Money.{validated_amount, validated_identifier, validated_currency}
use financial_engineering_sk.Processor.State.{
  Charge, FakeProcessor, fee_minor, new_processor, next_backend_id,
}
use financial_engineering_sk.Processor.{
  addressed_to_me, checked_request, new_charge, charge_new, answer_charge, charge_arrived,
  charge_locked, charge, charged_total_minor, charge_count, count_charges,
}
use financial_engineering_sk.Processor.Once.{
  send_all, resending_charges_once, lookup_miss_is_absence,
}
use financial_engineering_sk.Tests.Data.{mine, processor_losing, request}

request_is_well_formed : checked_request request ≡ ok ("pay:inv_1:1", ("inv_1", (pos 1200, "EUR")))
unfolding checked_request validated_amount validated_identifier validated_currency is_blank is_alpha
    is_upper
request_is_well_formed = refl

-- The first answer is lost; the charge stands all the same, and is made once.
three_sends_one_charge :
    charge_count "inv_1" (send_all 3 request (processor_losing ("pay:inv_1:1" ∷ []))) ≡ 1
unfolding send_all charge addressed_to_me checked_request validated_amount validated_identifier
    validated_currency is_blank is_alpha is_upper charge_locked charge_arrived charge_new new_charge
    answer_charge charge_count count_charges fee_minor decimal ◌-ℤ◌ neg
three_sends_one_charge = refl

abbrev first_charge : Charge
first_charge = record {
  charge_id = "ch_1";
  invoice_id = "inv_1";
  idempotency_key = "pay:inv_1:1";
  currency = "EUR";
  amount_minor = pos 1200;
  fee_minor = pos 36;
  net_minor = pos 1164;
  authority = "stripe" ∷ "acct" ∷ "eu" ∷ "be1" ∷ [];
  economic_fields = ("inv_1", (pos 1200, "EUR"));
}

first_charge_is_answered : (charge request (processor_losing [])).0 ≡ ok first_charge
unfolding charge addressed_to_me checked_request validated_amount validated_identifier
    validated_currency is_blank is_alpha is_upper charge_locked charge_arrived charge_new new_charge
    answer_charge fee_minor decimal ◌-ℤ◌ neg
first_charge_is_answered = refl

abbrev lossy_processor : FakeProcessor
lossy_processor = record (processor_losing []) { lossy = "pay:inv_1:1" ∷ [] }

lost_send_is_missed : lookup "pay:inv_1:1" (charge request lossy_processor).1.charges ≡ none
unfolding charge addressed_to_me checked_request validated_amount validated_identifier
    validated_currency is_blank is_alpha is_upper charge_locked
lost_send_is_missed = refl

resending_charges_once_example :
    (charged_total_minor "inv_1" (send_all 3 request (processor_losing ("pay:inv_1:1" ∷ [])))
      ≡ charged_total_minor "inv_1" (processor_losing ("pay:inv_1:1" ∷ [])))
    ⊎ (charged_total_minor "inv_1" (send_all 3 request (processor_losing ("pay:inv_1:1" ∷ [])))
        ≡ charged_total_minor "inv_1" (processor_losing ("pay:inv_1:1" ∷ [])) +ℤ pos 1200)
resending_charges_once_example =
    resending_charges_once request 3 (processor_losing ("pay:inv_1:1" ∷ [])) "pay:inv_1:1" "inv_1"
      "EUR" (pos 1200) request_is_well_formed "inv_1"

lookup_miss_is_absence_example : (charge request lossy_processor).1.charges ≡ []
lookup_miss_is_absence_example =
    lookup_miss_is_absence request lossy_processor "pay:inv_1:1" ("inv_1", (pos 1200, "EUR"))
      request_is_well_formed lost_send_is_missed

one_backend_made : (new_processor mine [] [] 0).1 ≤ 3
unfolding new_processor next_backend_id
one_backend_made = omega arith
