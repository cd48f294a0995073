-- ===== src/Bot/Holds.antt =====
-- safe_bot.py: what an order can owe, holding it, and letting the hold go.
use financial_engineering_sk.Prelude.{
  ℕ, ◌/◌, ◌==◌, string_eq, int_eq, not, ◌&&◌, if◌then◌else◌, List, [], ◌∷◌, Option, none, some,
  String, Result, ok, err, Exec, raise_if, lift, gets, ◌>>=◌, ◌>>◌, key_error, value_error,
  unknown_fee_asset, insufficient_available, sorted, by_key, Bool, true, false,
}
use financial_engineering_sk.Prelude.Dict.{Dict, lookup, insert}
use financial_engineering_sk.Prelude.Int.{ℤ, pos, ◌+ℤ◌, ◌-ℤ◌, ltb_ℤ}
use financial_engineering_sk.Prelude.Division.{◌*ℤ◌}
use financial_engineering_sk.Venue.Messages.{Market, buy, sell, expected_profit_fee_micro}
use financial_engineering_sk.Bot.State.{Focus, OrderRecord}
use financial_engineering_sk.Bot.Balances.{
  positions, locked, entry, add_to, take_from, edit, reserve, release, lock_shares,
}

abbrev pub min_ℤ : ℤ → ℤ → ℤ
min_ℤ a b = if ltb_ℤ b a then b else a

abbrev pub max_ℤ : ℤ → ℤ → ℤ
max_ℤ a b = if ltb_ℤ a b then b else a

abbrev pub max_ℕ : ℕ → ℕ → ℕ
max_ℕ a b = if ltb_ℤ (pos a) (pos b) then b else a

unfoldable pub collateral_obligation : String → ℤ → ℤ → ℤ
unfolding ◌*ℤ◌
collateral_obligation side qty price = if side == buy then qty *ℤ price else pos 0

abbrev pub worst_price : Market → String → ℤ → ℤ
worst_price m side price =
    let midpoint = pos (m.payout_per_share_micro / 2) in
    if side == buy then min_ℤ price midpoint else max_ℤ price midpoint

abbrev pub worst_rate : Market → ℕ
worst_rate m = max_ℕ m.maker_rate_ppm m.taker_rate_ppm

unfoldable pub worst_case_fee_micro : Market → String → ℤ → ℤ → ℤ
unfolding expected_profit_fee_micro
worst_case_fee_micro m side qty price =
    expected_profit_fee_micro m qty (worst_price m side price) (pos (worst_rate m))

abbrev pub complement_in : String → List String → Result String
complement_in outcome (a ∷ b ∷ []) = ok (if outcome == a then b else a)
complement_in outcome _ = err value_error

unfoldable pub complement_of : Market → String → Result String
complement_of m outcome = complement_in outcome m.outcomes

pub record ShortPlan : Type 0 where
  pub outcome : String
  pub side : String
  pub qty : ℤ
  pub price_micro : ℤ
  pub reserve_micro : ℤ

abbrev short_plan : Market → ℤ → ℤ → Result String → Result ShortPlan
short_plan m qty price (err e) = err e
short_plan m qty price (ok complement) =
    let complement_price = pos m.payout_per_share_micro -ℤ price in
    ok (record {
      outcome = complement;
      side = buy;
      qty = qty;
      price_micro = complement_price;
      reserve_micro = qty *ℤ complement_price;
    })

unfoldable pub plan_short_exposure : Market → String → ℤ → ℤ → Result ShortPlan
unfolding complement_of ◌*ℤ◌ ◌-ℤ◌
plan_short_exposure m outcome qty price = short_plan m qty price (complement_of m outcome)

-- asset in self.available
abbrev pub has_entry : Option ℤ → Bool
has_entry none = false
has_entry (some _) = true

-- need.get(asset, 0)
abbrev pub need_so_far : Option ℤ → ℤ
need_so_far none = pos 0
need_so_far (some amount) = amount

-- need[asset] = need.get(asset, 0) + amount, if the amount is not zero
abbrev pub add_need : String → ℤ → Dict String ℤ → Dict String ℤ
add_need asset amount need =
    if amount == pos 0 then need else insert asset (need_so_far (lookup asset need) +ℤ amount) need

abbrev pub covers : ℤ → Option ℤ → Result (Unit {0})
covers amount none = err key_error
covers amount (some held) = if ltb_ℤ held amount then err insufficient_available else ok tt

abbrev pub both : Result (Unit {0}) → Result (Unit {0}) → Result (Unit {0})
both (err e) rest = err e
both (ok _) rest = rest

abbrev pub check_needs : Dict String ℤ → Dict String ℤ → Result (Unit {0})
check_needs held [] = ok tt
check_needs held ((asset, amount) ∷ needs) =
    both (covers amount (lookup asset held)) (check_needs held needs)

abbrev pub needs_of : Market → ℤ → ℤ → Dict String ℤ
needs_of m obligation fee =
    sorted by_key (add_need m.fee_asset fee (add_need m.collateral_asset obligation []))

-- The shares that a sell needs are free.
abbrev pub check_shares : Exec Focus Unit
check_shares = do
  rec ← gets (λ (f : Focus). f.order)
  held ← entry positions rec.outcome
  taken ← entry locked rec.outcome
  raise_if (ltb_ℤ (held -ℤ taken) rec.qty) insufficient_available

abbrev pub hold_collateral : ℤ → Exec Focus Unit
hold_collateral amount = do
  m ← gets (λ (f : Focus). f.book.market)
  reserve m.collateral_asset amount
  edit (λ (r : OrderRecord). record r { reserved_micro = amount })

abbrev pub hold_fee : ℤ → Exec Focus Unit
hold_fee amount = do
  m ← gets (λ (f : Focus). f.book.market)
  reserve m.fee_asset amount
  edit (λ (r : OrderRecord). record r { fee_reserved_micro = amount })

abbrev pub hold_shares : Exec Focus Unit
hold_shares = do
  rec ← gets (λ (f : Focus). f.order)
  lock_shares rec.outcome rec.qty
  edit (λ (r : OrderRecord). record r { locked_shares = r.qty })

-- if test: do
abbrev pub when : Bool → Exec Focus Unit → Exec Focus Unit
when true m f = m f
when false m f = (ok tt, f)

unfoldable pub take_holds : String → ℤ → ℤ → Exec Focus Unit
unfolding reserve lock_shares
take_holds side obligation fee = do
  when (not (obligation == pos 0)) (hold_collateral obligation)
  when (not (fee == pos 0)) (hold_fee fee)
  when (side == sell) hold_shares

unfoldable pub check_holds : String → ℤ → ℤ → Exec Focus Unit
unfolding entry
check_holds side obligation fee = do
  book ← gets (λ (f : Focus). f.book)
  raise_if (not (fee == pos 0) && not (has_entry (lookup book.market.fee_asset book.available)))
      unknown_fee_asset
  lift (check_needs book.available (needs_of book.market obligation fee))
  when (side == sell) check_shares

unfoldable pub hold : Exec Focus Unit
unfolding check_holds take_holds collateral_obligation worst_case_fee_micro
hold f =
    let rec = f.order in
    let obligation = collateral_obligation rec.side rec.qty rec.price_micro in
    let fee = worst_case_fee_micro f.book.market rec.side rec.qty rec.price_micro in
    (do check_holds rec.side obligation fee; take_holds rec.side obligation fee) f

abbrev pub drop_collateral : Exec Focus Unit
drop_collateral f =
    (do
      release f.book.market.collateral_asset f.order.reserved_micro
      edit (λ (r : OrderRecord). record r { reserved_micro = pos 0 }))
      f

abbrev pub drop_fee : Exec Focus Unit
drop_fee f =
    (do
      release f.book.market.fee_asset f.order.fee_reserved_micro
      edit (λ (r : OrderRecord). record r { fee_reserved_micro = pos 0 }))
      f

abbrev pub drop_shares : Exec Focus Unit
drop_shares f =
    (do
      take_from locked f.order.outcome f.order.locked_shares
      edit (λ (r : OrderRecord). record r { locked_shares = pos 0 }))
      f

abbrev pub when_set : (OrderRecord → ℤ) → Exec Focus Unit → Exec Focus Unit
when_set field m f = when (not (field f.order == pos 0)) m f

unfoldable pub unwind : Exec Focus Unit
unfolding release add_to
unwind = do
  when_set (λ (r : OrderRecord). r.reserved_micro) drop_collateral
  when_set (λ (r : OrderRecord). r.fee_reserved_micro) drop_fee
  when_set (λ (r : OrderRecord). r.locked_shares) drop_shares
