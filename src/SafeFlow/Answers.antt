-- ===== src/SafeFlow/Answers.antt =====
-- safe_flow.py: what is checked of a processor's answer before it is believed.
use financial_engineering_sk.Prelude.{
  Bool, not, ◌&&◌, ◌||◌, List, String, ◌==◌, string_eq, int_eq, list_eq, if◌then◌else◌, Result, ok,
  err, and_then, response_mismatch,
}
use financial_engineering_sk.Prelude.Int.{ℤ, ◌-ℤ◌, ltb_ℤ}
use financial_engineering_sk.Value.{Value, Fields, dict, get, is_text, are_texts}
use financial_engineering_sk.Prose.{value_eq}
use financial_engineering_sk.Money.{
  AuthorityScope, fields, validated_amount, validated_component, validated_identifier,
  validated_currency,
}
use financial_engineering_sk.Store.Record.{Intent, authority_of}
use financial_engineering_sk.SafeFlow.Worker.{claimed_scope}

-- A capture answer that has been believed: the fields that are read of it afterwards.
pub record Captured : Type 0 where
  pub charge_id : String
  pub idempotency_key : String
  pub invoice_id : String
  pub amount_minor : ℤ
  pub currency : String

-- The well-formed part of an answer.
unfoldable pub captured_fields : Fields → Result Captured
captured_fields d = and_then (validated_identifier (get "idempotency_key" d)) λ key.
    and_then (validated_identifier (get "invoice_id" d)) λ invoice_id.
      and_then (validated_identifier (get "charge_id" d)) λ charge_id.
        and_then (validated_amount (get "amount_minor" d)) λ amount.
          and_then (validated_currency (get "currency" d)) λ currency. ok (record {
            charge_id = charge_id;
            idempotency_key = key;
            invoice_id = invoice_id;
            amount_minor = amount;
            currency = currency;
          })

-- except ValueError: raise ResponseMismatch. All that the checks raise are `ValueError`s.
abbrev pub or_mismatch {ℓ} : {A : Type ℓ} → Result A → Result A
or_mismatch (ok a) = ok a
or_mismatch (err e) = err response_mismatch

-- got == wanted
unfoldable pub describes : AuthorityScope → Intent → Captured → Value → Bool
describes authority intent c scope =
    c.idempotency_key == intent.key
    && c.invoice_id == intent.invoice_id
    && c.amount_minor == intent.amount_minor
    && c.currency == intent.currency
    && are_texts (fields authority) (claimed_scope scope)

-- `_validated_charge`
unfoldable pub validated_charge : AuthorityScope → Value → Intent → Result Captured
validated_charge authority (dict d) intent =
    and_then (or_mismatch (captured_fields d))
      λ c. if describes authority intent c (get "authority" d) then ok c else err response_mismatch
validated_charge authority _ intent = err response_mismatch

-- What `handle_webhook` answers.
pub data Verdict : Type 0 where
  malformed_event unexpected_type unidentified_charge unknown_charge malformed_charge : Verdict
  misrouted_charge currency_mismatch not_captured_here wrong_authority not_settled_yet : Verdict
  unidentified_settlement misrouted_settlement not_an_amount : Verdict
  settlement_arithmetic settlement_amount : Verdict
  applied duplicate : Verdict

-- A settlement that has been believed.
pub record Settled : Type 0 where
  pub settlement_id : String
  pub charge_id : String
  pub batch_id : String
  pub currency : String
  pub gross_minor : ℤ
  pub fee_minor : ℤ
  pub net_minor : ℤ

-- A refusal, or the facts that passed.
pub data Checked (A : Type 0) : Type 0 where
  refusal : Verdict → Checked A
  passed : A → Checked A

abbrev pub check_or {ℓ} :
    {A : Type ℓ} {B : Type 0} → Verdict → Result A → (A → Checked B) → Checked B
check_or v (ok a) f = f a
check_or v (err e) f = refusal v

-- The names of a settlement.
unfoldable pub settlement_names : Fields → Result (String × (String × String))
settlement_names d = and_then (validated_identifier (get "settlement_id" d)) λ settlement_id.
    and_then (validated_identifier (get "batch_id" d)) λ batch_id.
      and_then (validated_identifier (get "charge_id" d))
        λ charge_id. ok (settlement_id, (batch_id, charge_id))

-- The figures of a settlement and its currency.
unfoldable pub settlement_figures : Fields → Result ((ℤ × (ℤ × ℤ)) × String)
settlement_figures d = and_then (validated_amount (get "gross_minor" d)) λ gross.
    and_then (validated_component (get "fee_minor" d)) λ fee.
      and_then (validated_component (get "net_minor" d)) λ net.
        and_then (validated_currency (get "currency" d))
          λ currency. ok ((gross, (fee, net)), currency)

-- The arithmetic of a settlement, and that it is this charge's and this intent's.
unfoldable pub settlement_sums :
    String → String → String → String → ℤ → ℤ → ℤ → ℤ → Intent → Checked Settled
settlement_sums settlement_id batch_id charge_id currency gross fee net charged intent =
    if ltb_ℤ gross fee || not (gross -ℤ fee == net)
    then refusal settlement_arithmetic
    else if not (gross == charged) || not (gross == intent.amount_minor)
    then refusal settlement_amount
    else passed (record {
      settlement_id = settlement_id;
      charge_id = charge_id;
      batch_id = batch_id;
      currency = currency;
      gross_minor = gross;
      fee_minor = fee;
      net_minor = net;
    })

-- The scope of the settlement is that of the charge, of the intent, and of the worker.
abbrev pub same_scope : AuthorityScope → List Value → List Value → Intent → Bool
same_scope authority settled_scope charge_scope intent =
    settled_scope == charge_scope
    && are_texts (authority_of intent) settled_scope
    && are_texts (fields authority) settled_scope

-- `_settlement_refusal`: of a charge that was asked about, its amount and its scope.
unfoldable pub settlement_refusal :
    AuthorityScope → Value → String → ℤ → List Value → Intent → Checked Settled
settlement_refusal authority (dict d) charge_id charged charge_scope intent =
    check_or unidentified_settlement (settlement_names d) λ names.
      if not (names.1.1 == charge_id)
      then refusal misrouted_settlement
      else if not (same_scope authority (claimed_scope (get "authority" d)) charge_scope intent)
      then refusal wrong_authority
      else if not (is_text intent.currency (get "currency" d))
      then refusal currency_mismatch
      else check_or not_an_amount (settlement_figures d) λ figures.
        settlement_sums names.0 names.1.0 names.1.1 figures.1 figures.0.0 figures.0.1.0
          figures.0.1.1 charged intent
settlement_refusal authority _ charge_id charged charge_scope intent =
    refusal unidentified_settlement
