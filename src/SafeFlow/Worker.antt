-- ===== src/SafeFlow/Worker.antt =====
-- safe_flow.py: what a worker can see and change, and the identities that it mints.
use financial_engineering_sk.Prelude.{
  List, [], Option, none, some, String, ◌⧺◌, ◌==◌, string_eq, list_eq, if◌then◌else◌, Result, ok,
  err, Exec, attribute_error, authority_mismatch, ambiguous_timeout,
}
use financial_engineering_sk.Prelude.Decimal.{decimal}
use financial_engineering_sk.Value.{Value, str, int, list, tuple, texts, items}
use financial_engineering_sk.Money.{AuthorityScope, fields, describe}
use financial_engineering_sk.Processor.Interface.{ChargeRequest}
use financial_engineering_sk.Reconcile.Break.{Break}
use financial_engineering_sk.Store.Record.{Intent, authority_of, Store}
use financial_engineering_sk.Store.{get_intent}

-- The store that the workers share, the processor, and the breaks that this worker found.
pub record Flow (P : Type 0) : Type 0 where
  pub store : Store
  pub processor : P
  pub breaks : List Break

module _ {P A : Type 0} where
  abbrev pub on_store : Exec Store A → Exec (Flow P) A
  on_store m f = let (r, s) = m f.store in (r, record f { store = s })

  abbrev pub on_processor : Exec P A → Exec (Flow P) A
  on_processor m f = let (r, p) = m f.processor in (r, record f { processor = p })

  -- try: m / except AmbiguousTimeout: handler
  abbrev pub or_on_timeout : Exec (Flow P) A → Result A × Flow P → Result A × Flow P
  or_on_timeout handler (err ambiguous_timeout, f) = handler f
  or_on_timeout handler r = r

-- claimed_scope
abbrev pub claimed_scope : Value → List Value
claimed_scope (list vs) = items vs
claimed_scope (tuple vs) = items vs
claimed_scope _ = []

-- intent_key(invoice_id), of the first attempt
abbrev pub intent_key : String → String
intent_key invoice_id = "pay:" ⧺ invoice_id ⧺ ":" ⧺ decimal 1

unfoldable pub effect_id : AuthorityScope → String → String → String
effect_id authority kind external_id = kind ⧺ ":" ⧺ describe authority ⧺ ":" ⧺ external_id

-- The request that an intent on file makes.
abbrev pub request_of : Intent → ChargeRequest
request_of intent = record {
  idempotency_key = str intent.key;
  invoice_id = str intent.invoice_id;
  amount_minor = int intent.amount_minor;
  currency = str intent.currency;
  authority = texts (authority_of intent);
}

abbrev pub request_or_raise : Option Intent → Result ChargeRequest
request_or_raise none = err attribute_error
request_or_raise (some intent) = ok (request_of intent)

unfoldable pub stored_request : {P : Type 0} → String → Exec (Flow P) ChargeRequest
stored_request key f = (request_or_raise (get_intent key f.store), f)

-- `_bound`
unfoldable pub bound : {P : Type 0} → AuthorityScope → Intent → Exec (Flow P) Unit
bound authority intent f =
    if authority_of intent == fields authority then (ok tt, f) else (err authority_mismatch, f)
