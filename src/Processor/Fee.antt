-- ===== src/Processor/Fee.antt =====
-- `fee_minor`: the rounding of the fee.
use financial_engineering_sk.Prelude.{ℕ, zero, suc, ◌+◌, ◌*◌, ◌/◌, ◌≤◌, ◌≡◌, refl, arith}
use financial_engineering_sk.Prelude.Int.{pos, negsuc}
use financial_engineering_sk.Processor.State.{fee_minor}

fee_minor_pos : (n : ℕ) → fee_minor (pos n) ≡ pos ((n * 300 + 9999) / 10000)
unfolding fee_minor
fee_minor_pos zero = refl
fee_minor_pos (suc n) = ground arith

-- For an amount of n minor units the fee is the least whole number of minor units that is at
-- least 300 basis points of it, and it is no more than the amount.
pub fee_minor_ceiling :
    (n : ℕ)
    → (fee : ℕ) × (fee_minor (pos n) ≡ pos fee)
      × (n * 300 ≤ fee * 10000)
      × ((smaller : ℕ) → n * 300 ≤ smaller * 10000 → fee ≤ smaller)
      × (fee ≤ n)
fee_minor_ceiling n =
    ((n * 300 + 9999) / 10000, fee_minor_pos n, omega arith, λ m h. omega arith, omega arith)

rounds_up : fee_minor (pos 41250) ≡ pos 1238
unfolding fee_minor
rounds_up = refl

rounds_up_a_credit : fee_minor (negsuc 99) ≡ negsuc 2
unfolding fee_minor
rounds_up_a_credit = refl
