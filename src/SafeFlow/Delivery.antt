-- ===== src/SafeFlow/Delivery.antt =====
-- safe_flow.py, `handle_webhook`: what one delivery may do to the store.
use financial_engineering_sk.Prelude.{
  string_eq, int_eq, list_eq, ◌≡◌, ◌≢◌, [], ◌∷◌, ◌++◌, String, Result, ok, Hook,
}
use financial_engineering_sk.Value.{Value}
use financial_engineering_sk.Money.{AuthorityScope}
use financial_engineering_sk.Ledger.Record.{Ledger, Fingerprint}
use financial_engineering_sk.Ledger.Commit.{checked, new_entry}
use financial_engineering_sk.Store.Record.{Store, Intent}
use financial_engineering_sk.SafeFlow.Worker.{Flow}
use financial_engineering_sk.SafeFlow.Answers.{Verdict, applied, Settled, Checked, refusal, passed}
use financial_engineering_sk.SafeFlow.Webhook.{settlement_args}

-- A delivery is answered, or raises, with the store as it was; or it is applied, and the ledger
-- has one entry more, that of the call which `settlement_args` makes.
pub data Delivered (authority : AuthorityScope) (seam fault : Hook) (s : Store)
    : Result Verdict × Store → Type 0 where
  unmoved : (r : Result Verdict) → r ≢ ok applied → Delivered authority seam fault s (r, s)
  posted :
      (i : Intent) (t : Settled) (x : String) (f : Fingerprint)
      → checked (settlement_args authority i t seam fault) ≡ ok (x, f)
      → Delivered authority seam fault s (
        ok applied,
        record s {
          ledger = record {
            entries =
                s.ledger.entries
                ++ new_entry (settlement_args authority i t seam fault) x f s.ledger ∷ [];
          };
        },
      )

-- A check refuses with a refusal, never with the verdict of success.
abbrev Refuses : {A : Type 0} → Checked A → Type 0
Refuses (refusal v) = v ≢ applied
Refuses (passed a) = Unit

module _ {P : Type 0} (authority : AuthorityScope) (seam fault : Hook) where
  abbrev Flows : Store → Result Verdict × Flow P → Type 0
  Flows s r = Delivered authority seam fault s (r.0, r.1.store)
