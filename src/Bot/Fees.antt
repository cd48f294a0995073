-- ===== src/Bot/Fees.antt =====
-- safe_bot.py: the fee that is held for an order covers whatever a fill of it is charged.
use financial_engineering_sk.Prelude.{
  ◌≡◌, ◌⊎◌, inl, inr, refl, ap, subst, ℕ, ◌+◌, ◌-◌, ◌*◌, ◌/◌, ◌≤◌, ◌<◌, ◌==◌, string_eq, String,
  arith, Bool-cases, leb,
}
use native.Mathlib.Nat.{mul-le-mul, mul-le-mul_left}
use financial_engineering_sk.Prelude.Int.{ℤ, pos, neg, ◌-ℤ◌, ◌≤ℤ◌, int_laws, ltb_ℤ}
use financial_engineering_sk.Prelude.Division.{◌*ℤ◌, ◌//ℤ◌, ceil_div_mono}
use financial_engineering_sk.Venue.Messages.{
  Market, ppm, buy, sell, maker, rate_ppm_for, expected_profit_fee_micro,
}
use financial_engineering_sk.Bot.Holds.{worst_price, worst_rate, worst_case_fee_micro}

-- p * (1 - p), before the division
abbrev gain : ℕ → ℕ → ℕ
gain payout price = price * (payout - price)

gain_grows : (p k j : ℕ) → p * (p + k + k + j) ≤ (p + k) * (p + k + j)
gain_grows p k j = grind arith

gain_at : (payout p w k j : ℕ) → w ≡ p + k → payout ≡ w + w + j → gain payout p ≤ gain payout w
gain_at payout p w k j e f =
    let a : payout - p ≡ p + k + k + j = omega arith in
    let b : payout - w ≡ p + k + j = omega arith in rw (a, b) (rw e (gain_grows p k j))

gain_mono : (payout p w : ℕ) → p ≤ w → w + w ≤ payout → gain payout p ≤ gain payout w
gain_mono payout p w h half =
    gain_at payout p w (w - p) (payout - w - w) (omega arith) (omega arith)

gain_mirror : (payout p : ℕ) → p ≤ payout → gain payout (payout - p) ≡ gain payout p
gain_mirror payout p h = let e : payout - (payout - p) ≡ p = omega arith in rw e (grind arith)

-- No price gains more than the midpoint.
gain_midpoint : (payout p : ℕ) → p ≤ payout → gain payout p ≤ gain payout (payout / 2)
gain_midpoint payout p h = elim (Bool-cases (leb p (payout / 2))) [
  | inl low ↦ gain_mono payout p (payout / 2) (ground arith) (omega arith)
  | inr high ↦
      let mirrored = gain_mono payout (payout - p) (payout / 2) (ground arith) (omega arith) in
      omega (arith, mirrored, gain_mirror payout p h)
]

-- Past the midpoint the gain falls.
gain_falls : (payout p w : ℕ) → w ≤ p → p ≤ payout → payout ≤ w + w → gain payout p ≤ gain payout w
gain_falls payout p w h top half =
    let mirrored = gain_mono payout (payout - p) (payout - w) (omega arith) (omega arith) in
    omega (arith, mirrored, gain_mirror payout p top, gain_mirror payout w (omega arith))

-- The fee at a natural price within the bounds.
abbrev charged : Market → ℕ → ℕ → ℕ → ℤ
charged m q p r =
    neg
      (neg (pos (q * r * gain m.payout_per_share_micro p)) //ℤ pos (ppm * m.payout_per_share_micro))

minus_natural : (a b : ℕ) → b ≤ a → pos a -ℤ pos b ≡ pos (a - b)
minus_natural a b h = omega int_laws

fee-charged :
    (m : Market) (q p r : ℕ)
    → p ≤ m.payout_per_share_micro
    → expected_profit_fee_micro m (pos q) (pos p) (pos r) ≡ charged m q p r
unfolding expected_profit_fee_micro ◌*ℤ◌
fee-charged m q p r h =
    rw (minus_natural m.payout_per_share_micro p h)
      (ap (λ (n : ℕ). neg (neg (pos n) //ℤ pos (ppm * m.payout_per_share_micro))) (grind arith))

charged_mono :
    (m : Market) (q p w r s : ℕ)
    → 0 < m.payout_per_share_micro
    → gain m.payout_per_share_micro p ≤ gain m.payout_per_share_micro w
    → r ≤ s
    → charged m q p r ≤ℤ charged m q w s
charged_mono m q p w r s payout g rates =
    ceil_div_mono (q * r * gain m.payout_per_share_micro p)
      (q * s * gain m.payout_per_share_micro w) (ppm * m.payout_per_share_micro) (omega arith)
      (mul-le-mul (mul-le-mul_left q rates) g)

rate-le-worst : (m : Market) (liquidity : String) → rate_ppm_for m liquidity ≤ worst_rate m
unfolding rate_ppm_for
rate-le-worst m liquidity = elim (Bool-cases (liquidity == maker)) [
  | inl e ↦ rw e (ground arith)
  | inr e ↦ rw e (ground arith)
]

worst_gain :
    (m : Market) (w p : ℕ) (q : ℕ) (side liquidity : String) (limit : ℕ)
    → 0 < m.payout_per_share_micro
    → p ≤ m.payout_per_share_micro
    → w ≤ m.payout_per_share_micro
    → worst_price m side (pos limit) ≡ pos w
    → gain m.payout_per_share_micro p ≤ gain m.payout_per_share_micro w
    → expected_profit_fee_micro m (pos q) (pos p) (pos (rate_ppm_for m liquidity))
      ≤ℤ worst_case_fee_micro m side (pos q) (pos limit)
unfolding worst_case_fee_micro
worst_gain m w p q side liquidity limit payout top bound worst g =
    rw
      (
        worst,
        fee-charged m q p (rate_ppm_for m liquidity) top,
        fee-charged m q w (worst_rate m) bound,
      )
      (charged_mono m q p w (rate_ppm_for m liquidity) (worst_rate m) payout g
        (rate-le-worst m liquidity))

-- A resting buy fills at or below its bid, a resting sell at or above its offer.
abbrev pub FillsWithin : String → ℕ → ℕ → Type 0
FillsWithin side limit price = ((side ≡ buy) × (price ≤ limit)) ⊎ ((side ≡ sell) × (limit ≤ price))

buy_fee_is_held :
    (m : Market) (q p limit : ℕ) (liquidity : String)
    → 0 < m.payout_per_share_micro
    → p ≤ m.payout_per_share_micro
    → p ≤ limit
    → expected_profit_fee_micro m (pos q) (pos p) (pos (rate_ppm_for m liquidity))
      ≤ℤ worst_case_fee_micro m buy (pos q) (pos limit)
buy_fee_is_held m q p limit liquidity payout top h =
    let mid = m.payout_per_share_micro / 2 in
    elim (Bool-cases (ltb_ℤ (pos mid) (pos limit))) [
      | inl above ↦
          worst_gain m mid p q buy liquidity limit payout top (omega arith) (rw above refl)
            (gain_midpoint m.payout_per_share_micro p top)
      | inr below ↦
          let low : limit ≤ mid = ground (arith, below) in
          worst_gain m limit p q buy liquidity limit payout top (omega arith) (rw below refl)
            (gain_mono m.payout_per_share_micro p limit h (omega arith))
    ]

sell_fee_is_held :
    (m : Market) (q p limit : ℕ) (liquidity : String)
    → 0 < m.payout_per_share_micro
    → p ≤ m.payout_per_share_micro
    → limit ≤ p
    → expected_profit_fee_micro m (pos q) (pos p) (pos (rate_ppm_for m liquidity))
      ≤ℤ worst_case_fee_micro m sell (pos q) (pos limit)
sell_fee_is_held m q p limit liquidity payout top h =
    let whole = m.payout_per_share_micro in
    let mid = whole / 2 in
    elim (Bool-cases (ltb_ℤ (pos limit) (pos mid))) [
      | inl below ↦
          worst_gain m mid p q sell liquidity limit payout top (omega arith) (rw below refl)
            (gain_midpoint whole p top)
      | inr above ↦
          let high : mid ≤ limit = ground (arith, above) in
          worst_gain m limit p q sell liquidity limit payout top (omega arith) (rw above refl)
            (elim (Bool-cases (leb whole (limit + limit))) [
              | inl past ↦ gain_falls whole p limit h top (ground (arith, past))
              | inr odd ↦
                  let middle : mid ≡ limit = ground (arith, odd, high) in
                  subst (λ (w : ℕ). gain whole p ≤ gain whole w) middle (gain_midpoint whole p top)
            ])
    ]

-- In a market that pays something, a fill of a resting order at a price that is no more than the
-- payout, at or below the bid of a buy and at or above the offer of a sell, is charged no more, by
-- either liquidity rate, than the worst case that the bot holds for the quantity at the order's price.
pub fill_fee_is_held :
    (m : Market) (side liquidity : String) (q p limit : ℕ)
    → 0 < m.payout_per_share_micro
    → p ≤ m.payout_per_share_micro
    → FillsWithin side limit p
    → expected_profit_fee_micro m (pos q) (pos p) (pos (rate_ppm_for m liquidity))
      ≤ℤ worst_case_fee_micro m side (pos q) (pos limit)
fill_fee_is_held m side liquidity q p limit payout top (inl (e, h)) =
    rw e (buy_fee_is_held m q p limit liquidity payout top h)
fill_fee_is_held m side liquidity q p limit payout top (inr (e, h)) =
    rw e (sell_fee_is_held m q p limit liquidity payout top h)
