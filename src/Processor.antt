-- ===== src/Processor.antt =====
-- examples/payment-ledger-reconciliation/fake_processor.py: the counterparty. Each method is an
-- action on the processor's state; the lock makes each call one step. A charge and a settlement
-- are records here, and dicts once they are an answer (Processor/Answers.antt).
pub mod Interface
pub mod State
pub mod Answers
pub mod Fee
pub mod Charging
pub mod Once
pub mod Identity
use financial_engineering_sk.Prelude.{
  ◌+◌, ◌≡◌, Bool, true, false, not, ◌&&◌, List, [], ◌∷◌, ◌++◌, Option, none, some, String, ◌⧺◌,
  ◌==◌, ℕ, ◌*◌, ◌/◌, suc, string_eq, int_eq, pair_eq, list_eq, if◌then◌else◌, Result, ok, err, Exec,
  pure, raise, raise_if, and_then, lift, gets, modify, ◌>>=◌, ◌>>◌, ambiguous_timeout, key_mismatch,
  wrong_authority, key_error, length, contains, keep,
}
use financial_engineering_sk.Prelude.Decimal.{decimal}
use financial_engineering_sk.Prelude.Dict.{Dict, lookup, insert}
use financial_engineering_sk.Prelude.Int.{ℤ, pos, negsuc, neg, ◌+ℤ◌, ◌-ℤ◌}
use financial_engineering_sk.Value.{Value, are_texts}
use financial_engineering_sk.Money.{
  AuthorityScope, fields, validated_amount, validated_currency, validated_identifier,
}
use financial_engineering_sk.Processor.Interface.{ChargeRequest}
use financial_engineering_sk.Processor.State.{
  fee_minor, Charge, Settlement, Call, lookup_call, charge_call, FakeProcessor, discard,
}

unfoldable pub addressed_to_me : List Value → Exec FakeProcessor Unit
addressed_to_me authority p =
    raise_if (not (are_texts (fields p.scope) authority)) wrong_authority p

-- What is checked of a request before the lock is taken.
unfoldable pub checked_request : ChargeRequest → Result (String × (String × (ℤ × String)))
checked_request req = and_then (validated_identifier req.idempotency_key) λ key.
    and_then (validated_identifier req.invoice_id) λ invoice_id.
      and_then (validated_amount req.amount_minor) λ amount.
        and_then (validated_currency req.currency)
          λ currency. ok (key, (invoice_id, (amount, currency)))

abbrev note_send : String → FakeProcessor → FakeProcessor
note_send key p = record p { sends = p.sends ++ key ∷ []; calls = p.calls ++ charge_call key ∷ [] }

-- The charge that a request makes, numbered after those before it.
unfoldable pub new_charge : String → String × (ℤ × String) → FakeProcessor → Charge
new_charge key (invoice_id, (amount, currency)) p =
    let fee = fee_minor amount in
    record {
      charge_id = "ch_" ⧺ decimal (length p.charges + 1);
      invoice_id = invoice_id;
      idempotency_key = key;
      currency = currency;
      amount_minor = amount;
      fee_minor = fee;
      net_minor = amount -ℤ fee;
      authority = fields p.scope;
      economic_fields = (invoice_id, (amount, currency));
    }

abbrev record_charge : Charge → FakeProcessor → FakeProcessor
record_charge c p = record p {
  charges = insert c.idempotency_key c p.charges;
  by_charge_id = insert c.charge_id c p.by_charge_id;
}

-- The answer after a charge is recorded: lost once for an ambiguous key.
unfoldable pub answer_charge : Charge → Exec FakeProcessor Charge
answer_charge c p =
    if contains p.ambiguous c.idempotency_key
    then (err ambiguous_timeout, record p { ambiguous = discard c.idempotency_key p.ambiguous })
    else (ok c, p)

-- The charge is recorded before the answer can be lost.
unfoldable pub charge_new : String → String × (ℤ × String) → Exec FakeProcessor Charge
unfolding new_charge answer_charge
charge_new key economic p = let c = new_charge key economic p in answer_charge c (record_charge c p)

-- A request that has arrived.
unfoldable pub charge_arrived :
    String → String × (ℤ × String) → Option Charge → Exec FakeProcessor Charge
charge_arrived key economic (some existing) =
    if existing.economic_fields == economic then pure existing else raise key_mismatch
charge_arrived key economic none = charge_new key economic

-- The body under the lock.
unfoldable pub charge_locked : String → String × (ℤ × String) → Exec FakeProcessor Charge
charge_locked key economic p =
    let sent = note_send key p in
    if contains sent.lossy key
    then (err ambiguous_timeout, record sent { lossy = discard key sent.lossy })
    else charge_arrived key economic (lookup key sent.charges) sent

unfoldable pub charge : ChargeRequest → Exec FakeProcessor Charge
charge req = do
  addressed_to_me req.authority
  (key, economic) ← lift (checked_request req)
  charge_locked key economic

unfoldable pub lookup_charge : String → Exec FakeProcessor (Option Charge)
lookup_charge key p = (
  ok (lookup key p.charges),
  record p { lookups = p.lookups ++ key ∷ []; calls = p.calls ++ lookup_call key ∷ [] },
)

unfoldable pub get_charge : String → Exec FakeProcessor (Option Charge)
get_charge charge_id p = (ok (lookup charge_id p.by_charge_id), p)

unfoldable pub new_settlement : String → String → Charge → FakeProcessor → Settlement
new_settlement charge_id batch_id c p = record {
  settlement_id = "st_" ⧺ decimal (length p.settlements + 1);
  charge_id = charge_id;
  batch_id = batch_id;
  currency = c.currency;
  gross_minor = c.amount_minor;
  fee_minor = c.fee_minor;
  net_minor = c.net_minor;
  authority = fields p.scope;
}

unfoldable pub settle_new : String → String → Charge → Exec FakeProcessor Settlement
unfolding new_settlement
settle_new charge_id batch_id c p =
    let settled = new_settlement charge_id batch_id c p in
    (ok settled, record p { settlements = insert charge_id settled p.settlements })

-- The body of `settle` under the lock.
unfoldable pub settle_locked :
    String → String → Option Charge → Option Settlement → Exec FakeProcessor Settlement
settle_locked charge_id batch_id none found = raise key_error
settle_locked charge_id batch_id (some c) (some settled) = pure settled
settle_locked charge_id batch_id (some c) none = settle_new charge_id batch_id c

unfoldable pub settle : Value → Value → Exec FakeProcessor Settlement
settle charge_id batch_id = do
  batch ← lift (validated_identifier batch_id)
  id ← lift (validated_identifier charge_id)
  c ← gets (λ p. lookup id p.by_charge_id)
  settled ← gets (λ p. lookup id p.settlements)
  settle_locked id batch c settled

unfoldable pub settlement_for_charge : String → Exec FakeProcessor (Option Settlement)
settlement_for_charge charge_id p = (ok (lookup charge_id p.settlements), p)

-- The charges of an invoice, and what they add up to.
unfoldable pub total_charged : String → Dict String Charge → ℤ
total_charged invoice_id [] = pos 0
total_charged invoice_id ((k, c) ∷ charges) =
    let rest = total_charged invoice_id charges in
    if c.invoice_id == invoice_id then c.amount_minor +ℤ rest else rest

unfoldable pub charged_total_minor : String → FakeProcessor → ℤ
unfolding total_charged
charged_total_minor invoice_id p = total_charged invoice_id p.charges

unfoldable pub count_charges : String → Dict String Charge → ℕ
count_charges invoice_id [] = 0
count_charges invoice_id ((k, c) ∷ charges) =
    let rest = count_charges invoice_id charges in
    if c.invoice_id == invoice_id then suc rest else rest

unfoldable pub charge_count : String → FakeProcessor → ℕ
unfolding count_charges
charge_count invoice_id p = count_charges invoice_id p.charges
