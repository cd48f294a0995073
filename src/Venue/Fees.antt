-- ===== src/Venue/Fees.antt =====
-- fake_venue.py: what the fee is, and that it is symmetric about the midpoint.
use financial_engineering_sk.Prelude.{◌≡◌, ap, ◌*◌}
use financial_engineering_sk.Prelude.Int.{ℤ, pos, neg, ◌-ℤ◌, int_laws}
use financial_engineering_sk.Prelude.Division.{◌*ℤ◌, ◌//ℤ◌, *ℤ_swap}
use financial_engineering_sk.Venue.Messages.{Market, ppm, expected_profit_fee_micro}

minus_minus : (a b : ℤ) → a -ℤ (a -ℤ b) ≡ b
minus_minus a b = omega int_laws

-- A purchase of the complement, at the complement's price, is charged the fee of the sale that it
-- replaces: the fee is symmetric about the midpoint.
pub complement_costs_the_same :
    (m : Market) (qty price rate : ℤ)
    → expected_profit_fee_micro m qty (pos m.payout_per_share_micro -ℤ price) rate
      ≡ expected_profit_fee_micro m qty price rate
unfolding expected_profit_fee_micro
complement_costs_the_same m qty price rate =
    let payout = pos m.payout_per_share_micro in
    rw (minus_minus payout price) (
      ap (λ (n : ℤ). neg (neg n //ℤ pos (ppm * m.payout_per_share_micro)))
        (*ℤ_swap (qty *ℤ rate) (payout -ℤ price) price))
