-- ===== src/Tests/Data.antt =====
-- The concrete inputs that the tests share.
use financial_engineering_sk.Prelude.{List, [], ◌∷◌, none, String, absent, raises, injected_failure}
use financial_engineering_sk.Prelude.Int.{ℤ, pos, negsuc}
use financial_engineering_sk.Value.{Value, str, int, dict, field, end}
use financial_engineering_sk.Money.{AuthorityScope}
use financial_engineering_sk.Ledger.Record.{
  Posting, PostingArg, no_attribution, number, Fingerprint, Entry, empty_ledger, receivable,
  revenue,
}
use financial_engineering_sk.Ledger.Commit.{CommitArgs}
use financial_engineering_sk.Processor.Interface.{ChargeRequest}
use financial_engineering_sk.Processor.State.{FakeProcessor}
use financial_engineering_sk.Store.Record.{Store, new_store, Intent, pinned}
use financial_engineering_sk.SafeFlow.Pay.{PayHooks}
use financial_engineering_sk.SafeFlow.Worker.{Flow}
use financial_engineering_sk.SafeFlow.Paid.{Attempt}

abbrev pub mine : AuthorityScope
mine = record { provider = "stripe"; account = "acct"; region = "eu"; backend_id = "be1" }

abbrev pub theirs : AuthorityScope
theirs = record { provider = "stripe"; account = "acct"; region = "eu"; backend_id = "be2" }

abbrev pub arg : String → ℤ → PostingArg
arg account n = record { account = account; currency = str "EUR"; amount_minor = int n }

abbrev pub euro : String → ℤ → Posting
euro account n = record { account = account; currency = "EUR"; amount_minor = n }

-- A capture of 12.00 EUR, claimed with an amount.
abbrev pub capture_call : ℤ → CommitArgs
capture_call claimed = record {
  effect_id = str "capture:1";
  claim = number claimed ∷ [];
  kind = "charge_captured";
  reference = str "ch_1";
  postings = arg receivable (pos 1200) ∷ arg revenue (negsuc 1199) ∷ [];
  attribution = none;
  memo = [];
  corrects = "";
  break_id = "";
  seam = absent;
  fault = absent;
}

-- Its postings do not sum to zero.
abbrev pub unbalanced_call : CommitArgs
unbalanced_call = record (capture_call (pos 1200)) { postings = arg receivable (pos 1200) ∷ [] }

abbrev pub content : ℤ → Fingerprint
content claimed = record {
  claim = number claimed ∷ [];
  kind = "charge_captured";
  reference = "ch_1";
  postings = euro receivable (pos 1200) ∷ euro revenue (negsuc 1199) ∷ [];
  attribution = no_attribution;
  corrects = "";
  break_id = "";
}

abbrev pub capture_entry : Entry
capture_entry = record {
  entry_id = "e1";
  kind = "charge_captured";
  reference = "ch_1";
  postings = euro receivable (pos 1200) ∷ euro revenue (negsuc 1199) ∷ [];
  effect_id = "capture:1";
  fingerprint = content (pos 1200);
  attribution = no_attribution;
  memo = [];
  corrects = "";
  break_id = "";
}

-- A processor that loses the answer to the first charge of a key.
abbrev pub processor_losing : List String → FakeProcessor
processor_losing keys = record {
  scope = mine;
  charges = [];
  by_charge_id = [];
  settlements = [];
  ambiguous = keys;
  lossy = [];
  lookups = [];
  sends = [];
  calls = [];
}

abbrev pub request : ChargeRequest
request = record {
  idempotency_key = str "pay:inv_1:1";
  invoice_id = str "inv_1";
  amount_minor = int (pos 1200);
  currency = str "EUR";
  authority = str "stripe" ∷ str "acct" ∷ str "eu" ∷ str "be1" ∷ [];
}

abbrev pub intent : Intent
intent = pinned "pay:inv_1:1" "inv_1" (pos 1200) "EUR" mine

-- The store after the intent is opened.
abbrev pub one_intent : Store
one_intent = record {
  ledger = empty_ledger;
  authority = "stripe" ∷ "acct" ∷ "eu" ∷ "be1" ∷ [];
  intents = ("pay:inv_1:1", intent) ∷ [];
  breaks = [];
}

abbrev pub first_flow : Flow FakeProcessor
first_flow = record {
  store = new_store empty_ledger;
  processor = processor_losing ("pay:inv_1:1" ∷ []);
  breaks = [];
}

abbrev pub no_hooks : PayHooks
no_hooks = record { fail_after_send = absent; seam = absent; after_entry = absent }

-- The worker dies between the charge and the capture.
abbrev pub dies_after_send : PayHooks
dies_after_send = record no_hooks { fail_after_send = raises injected_failure }

-- A delivery that a charge is settled.
abbrev pub delivery : Value
delivery = dict (
    field "type" (str "payment.settled")
      (field "data" (dict (field "charge_id" (str "ch_1") end)) end))

-- The worker that dies after sending, one at another backend, and the one that recovers.
abbrev pub attempts : List Attempt
attempts =
    (record {
      authority = mine;
      amount_minor = int (pos 1200);
      currency = str "EUR";
      hooks = dies_after_send;
    })
    ∷ (record {
      authority = theirs;
      amount_minor = int (pos 1200);
      currency = str "EUR";
      hooks = no_hooks;
    })
    ∷ (record {
      authority = mine;
      amount_minor = int (pos 1200);
      currency = str "EUR";
      hooks = no_hooks;
    })
    ∷ []
