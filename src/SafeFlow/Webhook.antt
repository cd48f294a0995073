-- ===== src/SafeFlow/Webhook.antt =====
-- safe_flow.py: applying a settlement that a delivery announces.
use financial_engineering_sk.Prelude.{
  Bool, not, ◌||◌, List, [], ◌∷◌, Option, none, some, String, ◌==◌, string_eq, list_eq,
  if◌then◌else◌, Result, ok, and_then, Exec, pure, gets, ◌>>=◌, Hook, absent,
}
use financial_engineering_sk.Prelude.Int.{ℤ, neg}
use financial_engineering_sk.Prelude.Text.{is_blank}
use financial_engineering_sk.Value.{
  Value, Fields, none_value, str, dict, get, is_text, are_texts, is_none,
}
use financial_engineering_sk.Prose.{text}
use financial_engineering_sk.Money.{
  AuthorityScope, fields, validated_amount, validated_identifier, validated_currency,
}
use financial_engineering_sk.Processor.Interface.{ProcessorApi}
use financial_engineering_sk.Ledger.Record.{
  Claim, text as claim_text, cash, fees as fees_account, receivable,
}
use financial_engineering_sk.Ledger.Commit.{CommitArgs}
use financial_engineering_sk.Store.Record.{Intent, authority_of, state_beq, captured}
use financial_engineering_sk.Store.{intent_for_charge, commit_effect}
use financial_engineering_sk.SafeFlow.Worker.{
  Flow, on_store, on_processor, effect_id, claimed_scope,
}
use financial_engineering_sk.SafeFlow.Answers.{
  Verdict, malformed_event, unexpected_type, unidentified_charge, unknown_charge, malformed_charge,
  misrouted_charge, currency_mismatch, not_captured_here, wrong_authority, not_settled_yet, applied,
  duplicate, Checked, refusal, passed, check_or, Settled, settlement_refusal,
}
use financial_engineering_sk.SafeFlow.Capture.{posting, scope_claim}

-- The charge that a delivery names, and the currency if it says one.
abbrev pub read_charge : Fields → Value → Checked (String × Value)
read_charge d (str claimed) =
    if is_blank claimed then refusal unidentified_charge else passed (claimed, get "currency" d)
read_charge d _ = refusal unidentified_charge

abbrev pub read_data : Value → Checked (String × Value)
read_data (dict d) = read_charge d (get "charge_id" d)
read_data _ = refusal malformed_event

unfoldable pub read_event : Value → Checked (String × Value)
read_event (dict envelope) =
    if is_text "payment.settled" (get "type" envelope)
    then read_data (get "data" envelope)
    else refusal unexpected_type
read_event _ = refusal malformed_event

-- The answer about a charge, as far as it is read.
pub record ChargeFacts : Type 0 where
  pub charge_id : String
  pub amount_minor : ℤ
  pub currency : String
  pub scope : List Value

-- The shape of the answer, before it is compared to the question.
unfoldable pub charge_fields : Fields → Result ChargeFacts
charge_fields d = and_then (validated_identifier (get "charge_id" d)) λ charge_id.
    and_then (validated_amount (get "amount_minor" d)) λ amount.
      and_then (validated_currency (get "currency" d)) λ currency. ok (record {
        charge_id = charge_id;
        amount_minor = amount;
        currency = currency;
        scope = claimed_scope (get "authority" d);
      })

-- claim in (None, currency)
abbrev pub agrees_on_currency : Value → String → Bool
agrees_on_currency claim currency = is_none claim || is_text currency claim

unfoldable pub read_answer : String → Value → Value → Checked ChargeFacts
read_answer claimed claim none_value = refusal unknown_charge
read_answer claimed claim (dict d) = check_or malformed_charge (charge_fields d) λ c.
    if not (c.charge_id == claimed)
    then refusal misrouted_charge
    else if not (agrees_on_currency claim c.currency)
    then refusal currency_mismatch
    else passed c
read_answer claimed claim _ = refusal malformed_charge

-- The intent that captured the charge, in this worker's scope.
unfoldable pub find_captured : AuthorityScope → ChargeFacts → Option Intent → Checked Intent
find_captured authority c none = refusal not_captured_here
find_captured authority c (some intent) =
    if not (state_beq intent.state captured)
    then refusal not_captured_here
    else if not (authority_of intent == fields authority)
    then refusal wrong_authority
    else if not (are_texts (fields authority) c.scope)
    then refusal wrong_authority
    else passed intent

-- The entry of a settlement.
unfoldable pub settlement_args : AuthorityScope → Intent → Settled → Hook → Hook → CommitArgs
unfolding effect_id
settlement_args authority intent s seam fault = record {
  effect_id = str (effect_id authority "settlement" s.settlement_id);
  claim =
      claim_text s.settlement_id
      ∷ claim_text s.charge_id
      ∷ claim_text s.batch_id
      ∷ claim_text s.currency
      ∷ Claim.number s.gross_minor
      ∷ Claim.number s.fee_minor
      ∷ Claim.number s.net_minor
      ∷ scope_claim (fields authority);
  kind = "settlement";
  reference = str s.settlement_id;
  postings =
      posting cash s.currency s.net_minor
      ∷ posting fees_account s.currency s.fee_minor
      ∷ posting receivable s.currency (neg s.gross_minor)
      ∷ [];
  attribution = some (record {
    settlement_id = str s.settlement_id;
    charge_id = str s.charge_id;
    batch_id = str s.batch_id;
    currency = str s.currency;
  });
  memo = text "invoice " ∷ text intent.invoice_id ∷ text " settled" ∷ [];
  corrects = "";
  break_id = "";
  seam = seam;
  fault = fault;
}

-- None is a charge that is not settled yet.
abbrev pub if_settled : Value → Checked Value
if_settled none_value = refusal not_settled_yet
if_settled answer = passed answer

module _ {P : Type 0} where
  -- A refusal is answered; what passed goes on.
  abbrev pub checking :
      {A : Type 0} → Checked A → (A → Exec (Flow P) Verdict) → Exec (Flow P) Verdict
  checking (refusal v) next = pure v
  checking (passed a) next = next a

  module _ (authority : AuthorityScope) (api : ProcessorApi P) where
    -- The settlement of a charge that this worker captured.
    unfoldable pub apply_settlement :
        ChargeFacts → Intent → Value → Hook → Hook → Exec (Flow P) Verdict
    apply_settlement c intent answer seam fault =
        checking (settlement_refusal authority answer c.charge_id c.amount_minor c.scope intent)
          λ s. do
            a ← on_store (commit_effect (settlement_args authority intent s seam fault) [] absent)
            pure (if a.applied then applied else duplicate)

    unfoldable pub settle_charge : ChargeFacts → Intent → Hook → Hook → Exec (Flow P) Verdict
    settle_charge c intent seam fault = do
      answer ← on_processor (api.settlement_for_charge c.charge_id)
      checking (if_settled answer) (λ settled. apply_settlement c intent settled seam fault)

    unfoldable pub handle_charge : String → Value → Value → Hook → Hook → Exec (Flow P) Verdict
    handle_charge claimed claim answer seam fault = checking (read_answer claimed claim answer) λ c.
        do
          intent ← gets (λ (f : Flow P). intent_for_charge c.charge_id f.store)
          checking (find_captured authority c intent) (λ i. settle_charge c i seam fault)

    unfoldable pub handle_webhook : Value → Hook → Hook → Exec (Flow P) Verdict
    handle_webhook envelope seam fault = checking (read_event envelope) λ event. do
      answer ← on_processor (api.get_charge event.0)
      handle_charge event.0 event.1 answer seam fault
