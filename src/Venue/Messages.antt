-- ===== src/Venue/Messages.antt =====
-- examples/prediction-market-bot/fake_venue.py: the market, requests, events and the fee.
use financial_engineering_sk.Prelude.{
  ◌≡◌, refl, ℕ, ◌*◌, List, Option, String, ◌==◌, string_eq, int_eq, pair_eq, Equality, equality_via,
  if◌then◌else◌,
}
use financial_engineering_sk.Prelude.Int.{ℤ, pos, neg, ◌-ℤ◌}
use financial_engineering_sk.Prelude.Division.{◌*ℤ◌, ◌//ℤ◌}

abbrev pub ppm : ℕ
ppm = 1000000

abbrev pub buy : String
buy = "BUY"

abbrev pub sell : String
sell = "SELL"

abbrev pub maker : String
maker = "MAKER"

-- The metadata of a market, with those of its fee. Sizes and rates are natural numbers; the payout
-- of a share and the tick are divisors, and no market has a zero there.
pub record Market : Type 0 where
  pub market_id : String
  pub outcomes : List String
  pub collateral_asset : String
  pub payout_per_share_micro : ℕ
  pub tick_micro : ℕ
  pub min_size_shares : ℕ
  pub fee_asset : String
  pub maker_rate_ppm : ℕ
  pub taker_rate_ppm : ℕ

pub record OrderRequest : Type 0 where
  pub client_key : String
  pub market_id : String
  pub outcome : String
  pub side : String
  pub qty : ℤ
  pub price_micro : ℤ

-- req.payload()
abbrev pub Payload : Type 0
Payload = String × (String × (String × (String × (ℤ × ℤ))))

abbrev pub payload : OrderRequest → Payload
payload r = (r.client_key, (r.market_id, (r.outcome, (r.side, (r.qty, r.price_micro)))))

abbrev pub of_payload : Payload → OrderRequest
of_payload (k, (m, (o, (s, (q, p))))) = record {
  client_key = k;
  market_id = m;
  outcome = o;
  side = s;
  qty = q;
  price_micro = p;
}

pub of_payload-payload : (r : OrderRequest) → of_payload (payload r) ≡ r
of_payload-payload r = refl

instance abbrev pub request_eq : Equality OrderRequest
request_eq = equality_via payload of_payload of_payload-payload

pub record Fee : Type 0 where
  pub amount_micro : ℤ
  pub rate_ppm : ℤ
  pub asset : String

-- What an event tells, by its type; a message of any other type is `other`.
pub data Body : Type 0 where
  order_accepted : (order_id client_key outcome side : String) (qty price_micro : ℤ) → Body
  fill_made :
      (order_id client_key outcome side : String) (qty price_micro : ℤ) (liquidity : String)
      (fee : Fee)
      → Body
  order_cancelled : (order_id client_key : String) (remaining : ℤ) → Body
  market_determined : (payout_numerators : List ℤ) (payout_denominator : ℤ) → Body
  market_resolved :
      (payout_numerators : List ℤ) (payout_denominator : ℤ) (winning_outcome_index : Option ℕ)
      → Body
  other : (event_type : String) → Body

pub record Event : Type 0 where
  pub seq : ℕ
  pub event_id : String
  pub market_id : String
  pub body : Body

unfoldable pub rate_ppm_for : Market → String → ℕ
rate_ppm_for m liquidity = if liquidity == maker then m.maker_rate_ppm else m.taker_rate_ppm

-- -(-numerator // denominator)
unfoldable pub expected_profit_fee_micro : Market → ℤ → ℤ → ℤ → ℤ
unfolding ◌*ℤ◌ ◌//ℤ◌ ◌-ℤ◌ neg
expected_profit_fee_micro m qty price rate =
    let payout = m.payout_per_share_micro in
    let numerator = qty *ℤ rate *ℤ price *ℤ (pos payout -ℤ price) in
    neg (neg numerator //ℤ pos (ppm * payout))
