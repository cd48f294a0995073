-- ===== src/Store/Record.antt =====
-- store.py: what the store holds.
use financial_engineering_sk.Prelude.{
  Bool, true, false, List, [], ◌∷◌, String, string_eq, int_eq, pair_eq, list_eq,
}
use financial_engineering_sk.Prelude.Dict.{Dict}
use financial_engineering_sk.Prelude.Int.{ℤ}
use financial_engineering_sk.Money.{AuthorityScope}
use financial_engineering_sk.Ledger.Record.{Ledger, Fingerprint}
use financial_engineering_sk.Reconcile.Break.{Break}

pub record Applied : Type 0 where
  pub effect_id : String
  pub entry_id : String
  pub fields : Fingerprint
  pub applied : Bool

-- "PENDING" and "CAPTURED"
pub data IntentState : Type 0 where
  pending captured : IntentState

abbrev pub state_beq : IntentState → IntentState → Bool
state_beq pending pending = true
state_beq pending captured = false
state_beq captured pending = false
state_beq captured captured = true

pub record Intent : Type 0 where
  pub key : String
  pub invoice_id : String
  pub amount_minor : ℤ
  pub currency : String
  pub provider : String
  pub account : String
  pub region : String
  pub backend_id : String
  pub state : IntentState
  pub charge_id : String

-- `Intent.authority`
abbrev pub authority_of : Intent → List String
authority_of i = i.provider ∷ i.account ∷ i.region ∷ i.backend_id ∷ []

-- `Intent.binding`
abbrev pub binding : Intent → (String × (ℤ × String)) × List String
binding i = ((i.invoice_id, (i.amount_minor, i.currency)), authority_of i)

-- A new intent, pinned to an authority.
abbrev pub pinned : String → String → ℤ → String → AuthorityScope → Intent
pinned key invoice_id amount_minor currency authority = record {
  key = key;
  invoice_id = invoice_id;
  amount_minor = amount_minor;
  currency = currency;
  provider = authority.provider;
  account = authority.account;
  region = authority.region;
  backend_id = authority.backend_id;
  state = pending;
  charge_id = "";
}

-- The fields that `intent_updates` replaces.
pub record IntentUpdate : Type 0 where
  pub state : IntentState
  pub charge_id : String

-- `state` is "OPEN" or "CLOSED".
pub record BreakRecord : Type 0 where
  pub break_id : String
  pub brk : Break
  pub is_open : Bool
  pub entry_id : String
  pub approved_by : String

abbrev pub closed : BreakRecord → String → String → BreakRecord
closed r entry_id approved_by = record r {
  is_open = false;
  entry_id = entry_id;
  approved_by = approved_by;
}

pub record Store : Type 0 where
  pub ledger : Ledger
  pub authority : List String
  pub intents : Dict String Intent
  pub breaks : Dict String BreakRecord

abbrev pub new_store : Ledger → Store
new_store l = record { ledger = l; authority = []; intents = []; breaks = [] }
