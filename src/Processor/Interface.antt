-- ===== src/Processor/Interface.antt =====
-- What a worker may ask of a processor, whichever one it is bound to.
use financial_engineering_sk.Prelude.{List, String, Exec}
use financial_engineering_sk.Value.{Value}

pub record ChargeRequest : Type 0 where
  pub idempotency_key : Value
  pub invoice_id : Value
  pub amount_minor : Value
  pub currency : Value
  pub authority : List Value

-- Answers are values of any shape; a lookup that misses answers `none_value`.
pub record ProcessorApi (P : Type 0) : Type 0 where
  pub charge : ChargeRequest → Exec P Value
  pub lookup : String → Exec P Value
  pub get_charge : String → Exec P Value
  pub settlement_for_charge : String → Exec P Value
