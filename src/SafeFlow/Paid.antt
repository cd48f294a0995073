-- ===== src/SafeFlow/Paid.antt =====
-- safe_flow.py, `pay_invoice` over fake_processor.py: attempts to pay one invoice.
use financial_engineering_sk.Prelude.{List, [], ◌∷◌, String, string_eq, list_eq}
use financial_engineering_sk.Value.{Value}
use financial_engineering_sk.Money.{AuthorityScope}
use financial_engineering_sk.Processor.State.{FakeProcessor}
use financial_engineering_sk.Processor.Answers.{fake_api}
use financial_engineering_sk.SafeFlow.Worker.{Flow}
use financial_engineering_sk.SafeFlow.Pay.{PayHooks, pay_invoice}
use financial_engineering_sk.SafeFlow.Keeps.{Keeps}

-- One attempt to pay: the worker's authority, what it is asked to pay, and what happens to it.
pub record Attempt : Type 0 where
  pub authority : AuthorityScope
  pub amount_minor : Value
  pub currency : Value
  pub hooks : PayHooks

-- Workers that pay one invoice, one after another, whatever each attempt returned or raised.
unfoldable pub pay_all : String → List Attempt → Flow FakeProcessor → Flow FakeProcessor
pay_all invoice_id [] f = f
pay_all invoice_id (t ∷ ts) f =
    pay_all invoice_id ts
      (pay_invoice t.authority fake_api invoice_id t.amount_minor t.currency t.hooks f).1
