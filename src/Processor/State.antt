-- ===== src/Processor/State.antt =====
-- fake_processor.py: the fee, the records, and the construction of a processor.
use financial_engineering_sk.Prelude.{
  ◌+◌, not, List, [], String, ◌⧺◌, ◌==◌, ℕ, ◌*◌, ◌/◌, suc, string_eq, int_eq, pair_eq, list_eq,
  keep,
}
use financial_engineering_sk.Prelude.Decimal.{decimal}
use financial_engineering_sk.Prelude.Dict.{Dict}
use financial_engineering_sk.Prelude.Int.{ℤ, pos, negsuc, neg}
use financial_engineering_sk.Money.{AuthorityScope}

-- fee_bps = 300 of 10_000
abbrev pub fee_bps : ℕ
fee_bps = 300

-- n * k
abbrev pub times : ℤ → ℕ → ℤ
times (pos n) k = pos (n * k)
times (negsuc n) k = neg (pos (suc n * k))

-- n // d, rounded down
abbrev pub floor_div : ℤ → ℕ → ℤ
floor_div (pos n) d = pos (n / d)
floor_div (negsuc n) d = negsuc (n / d)

unfoldable pub fee_minor : ℤ → ℤ
unfolding neg
fee_minor amount = neg (floor_div (times (neg amount) fee_bps) 10000)

pub record Charge : Type 0 where
  pub charge_id : String
  pub invoice_id : String
  pub idempotency_key : String
  pub currency : String
  pub amount_minor : ℤ
  pub fee_minor : ℤ
  pub net_minor : ℤ
  pub authority : List String
  pub economic_fields : String × (ℤ × String)

pub record Settlement : Type 0 where
  pub settlement_id : String
  pub charge_id : String
  pub batch_id : String
  pub currency : String
  pub gross_minor : ℤ
  pub fee_minor : ℤ
  pub net_minor : ℤ
  pub authority : List String

-- `calls`: a lookup or a charge, of a key
pub data Call : Type 0 where
  lookup_call charge_call : String → Call

pub record FakeProcessor : Type 0 where
  pub scope : AuthorityScope
  pub charges : Dict String Charge
  pub by_charge_id : Dict String Charge
  pub settlements : Dict String Settlement
  pub ambiguous : List String
  pub lossy : List String
  pub lookups : List String
  pub sends : List String
  pub calls : List Call

-- `_next_backend_id`, on the number of backends made so far
unfoldable pub next_backend_id : ℕ → String × ℕ
next_backend_id made = ("be" ⧺ decimal (made + 1), made + 1)

-- `FakeProcessor.__init__`: whatever scope is handed in, the backend's identity is a new one.
unfoldable pub new_processor : AuthorityScope → List String → List String → ℕ → FakeProcessor × ℕ
unfolding next_backend_id
new_processor authority ambiguous_keys lossy_keys made =
    let (backend, made') = next_backend_id made in
    (
      record {
        scope = record authority { backend_id = backend };
        charges = [];
        by_charge_id = [];
        settlements = [];
        ambiguous = ambiguous_keys;
        lossy = lossy_keys;
        lookups = [];
        sends = [];
        calls = [];
      },
      made',
    )

-- set.discard
abbrev pub discard : String → List String → List String
discard key = keep (λ k. not (k == key))
