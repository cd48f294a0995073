-- ===== src/Processor/Answers.antt =====
-- fake_processor.py: charges and settlements as the dicts that a caller sees, and the processor
-- behind the interface that workers use.
use financial_engineering_sk.Prelude.{List, [], ◌∷◌, Option, none, some, String, pure, ◌>>=◌}
use financial_engineering_sk.Prelude.Int.{ℤ}
use financial_engineering_sk.Value.{
  Value, Items, none_value, int, str, list, tuple, dict, nil, cons, end, field,
}
use financial_engineering_sk.Processor.Interface.{ProcessorApi}
use financial_engineering_sk.Processor.State.{Charge, Settlement, FakeProcessor}
use financial_engineering_sk.Processor

abbrev pub text_items : List String → Items
text_items [] = nil
text_items (s ∷ ss) = cons (str s) (text_items ss)

abbrev pub economic_items : String × (ℤ × String) → Items
economic_items (i, (n, s)) = cons (str i) (cons (int n) (cons (str s) nil))

abbrev pub charge_value : Charge → Value
charge_value c = dict (
    field "charge_id" (str c.charge_id) (
      field "invoice_id" (str c.invoice_id) (
        field "idempotency_key" (str c.idempotency_key) (
          field "currency" (str c.currency) (
            field "amount_minor" (int c.amount_minor) (
              field "fee_minor" (int c.fee_minor) (
                field "net_minor" (int c.net_minor) (
                  field "authority" (tuple (text_items c.authority))
                    (field "economic_fields" (list (economic_items c.economic_fields)) end)))))))))

abbrev pub settlement_value : Settlement → Value
settlement_value s = dict (
    field "settlement_id" (str s.settlement_id) (
      field "charge_id" (str s.charge_id) (
        field "batch_id" (str s.batch_id) (
          field "currency" (str s.currency) (
            field "gross_minor" (int s.gross_minor) (
              field "fee_minor" (int s.fee_minor) (
                field "net_minor" (int s.net_minor)
                  (field "authority" (tuple (text_items s.authority)) end))))))))

abbrev pub charge_or_none : Option Charge → Value
charge_or_none none = none_value
charge_or_none (some c) = charge_value c

abbrev pub settlement_or_none : Option Settlement → Value
settlement_or_none none = none_value
settlement_or_none (some s) = settlement_value s

unfoldable pub fake_api : ProcessorApi FakeProcessor
unfolding Processor.charge Processor.lookup_charge Processor.get_charge
    Processor.settlement_for_charge
fake_api = record {
  charge = λ req. do
    c ← Processor.charge req
    pure (charge_value c);
  lookup = λ key. do
    c ← Processor.lookup_charge key
    pure (charge_or_none c);
  get_charge = λ charge_id. do
    c ← Processor.get_charge charge_id
    pure (charge_or_none c);
  settlement_for_charge = λ charge_id. do
    s ← Processor.settlement_for_charge charge_id
    pure (settlement_or_none s);
}
