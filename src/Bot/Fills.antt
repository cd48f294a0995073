-- ===== src/Bot/Fills.antt =====
-- safe_bot.py: the events of one order: acceptance, fills with their fees, cancellation.
use financial_engineering_sk.Prelude.{
  ◌==◌, string_eq, int_eq, nat_eq, pair_eq, if◌then◌else◌, not, Bool, true, false, Option, none,
  some, String, err, Exec, pure, raise_if, ◌>>=◌, ◌>>◌, illegal_transition, unknown_fee_asset,
}
use financial_engineering_sk.Prelude.Dict.{lookup}
use financial_engineering_sk.Prelude.Int.{ℤ, pos, ◌+ℤ◌, ◌-ℤ◌, ltb_ℤ}
use financial_engineering_sk.Prelude.Division.{◌*ℤ◌}
use financial_engineering_sk.Venue.Messages.{
  Market, Fee, Body, order_accepted, fill_made, order_cancelled, buy, rate_ppm_for,
  expected_profit_fee_micro,
}
use financial_engineering_sk.Bot.State.{
  BotState, pending, working, filled, cancelled, OrderRecord, terms_differ, bought_above_the_bid,
  sold_below_the_offer, collateral_went_negative, position_went_negative, fee_in_another_asset,
  fee_exceeds_hold, fee_rate_differs, fee_amount_differs, asset_went_negative, Book, Focus,
}
use financial_engineering_sk.Bot.Balances.{
  available, fees_paid, positions, locked, entry, add_to, take_from, edit, release,
}
use financial_engineering_sk.Bot.Holds.{min_ℤ, worst_case_fee_micro, has_entry, when, hold, unwind}
use financial_engineering_sk.Bot.Sending.{set_state, say, bind_order, focus_on}

-- What a message tells of the terms of an order.
abbrev pub Terms : Type 0
Terms = String × (String × (ℤ × ℤ))

abbrev pub terms_of : OrderRecord → Terms
terms_of r = (r.outcome, (r.side, (r.qty, r.price_micro)))

abbrev pub adopt : Terms → OrderRecord → OrderRecord
adopt (outcome, (side, (qty, price))) r = record r {
  outcome = outcome;
  side = side;
  qty = qty;
  price_micro = price;
}

abbrev pub rehold : Terms → Exec Focus Unit
rehold terms f =
    (do
      say (terms_differ f.order.client_key terms (terms_of f.order))
      unwind
      edit (adopt terms)
      hold)
      f

unfoldable pub on_accepted : Terms → Exec Focus Unit
on_accepted terms f =
    (do when (not (terms == terms_of f.order)) (rehold terms); set_state working) f

-- Releases the slice of the fee hold that this fill may have, and tells how much that was.
unfoldable pub release_fee_hold : ℤ → Exec Focus ℤ
unfolding release
release_fee_hold qty f =
    let rec = f.order in
    let slice =
      min_ℤ (worst_case_fee_micro f.book.market rec.side qty rec.price_micro)
        rec.fee_reserved_micro in
    (do
      when (not (slice == pos 0)) (do
        release f.book.market.fee_asset slice
        edit (λ (r : OrderRecord). record r { fee_reserved_micro = r.fee_reserved_micro -ℤ slice }))
      pure slice)
      f

abbrev pub check_fee_hold : Market → Fee → ℤ → Exec Focus Unit
check_fee_hold m fee held =
    if not (fee.asset == m.fee_asset)
    then say (fee_in_another_asset fee.asset m.fee_asset)
    else when (ltb_ℤ held fee.amount_micro) (say (fee_exceeds_hold fee.amount_micro fee.asset held))

unfoldable pub book_fee : Fee → ℤ → ℤ → String → Exec Focus Unit
unfolding release_fee_hold entry add_to
book_fee fee qty price liquidity f =
    let m = f.book.market in
    let expected_rate = rate_ppm_for m liquidity in
    let expected_amount = expected_profit_fee_micro m qty price fee.rate_ppm in
    (do
      raise_if (not (has_entry (lookup fee.asset f.book.available))) unknown_fee_asset
      held ← release_fee_hold qty
      check_fee_hold m fee held
      when (not (fee.rate_ppm == pos expected_rate))
          (say (fee_rate_differs fee.rate_ppm liquidity expected_rate))
      when (not (fee.amount_micro == expected_amount))
          (say (fee_amount_differs fee.amount_micro expected_amount fee.rate_ppm))
      take_from available fee.asset fee.amount_micro
      add_to fees_paid fee.asset fee.amount_micro
      left ← entry available fee.asset
      when (ltb_ℤ left (pos 0)) (say (asset_went_negative fee.asset)))
      f

unfoldable pub book_purchase : ℤ → ℤ → Exec Focus Unit
unfolding release add_to ◌*ℤ◌
book_purchase qty price f =
    let rec = f.order in
    let collateral = f.book.market.collateral_asset in
    let slice = min_ℤ (qty *ℤ rec.price_micro) rec.reserved_micro in
    (do
      when (ltb_ℤ rec.price_micro price) (say (bought_above_the_bid rec.client_key))
      when (not (slice == pos 0)) (do
        release collateral slice
        edit (λ (r : OrderRecord). record r { reserved_micro = r.reserved_micro -ℤ slice }))
      take_from available collateral (qty *ℤ price)
      add_to positions rec.outcome qty)
      f

unfoldable pub book_sale : ℤ → ℤ → Exec Focus Unit
unfolding add_to ◌*ℤ◌
book_sale qty price f =
    let rec = f.order in
    let unlock = min_ℤ qty rec.locked_shares in
    (do
      when (ltb_ℤ price rec.price_micro) (say (sold_below_the_offer rec.client_key))
      take_from locked rec.outcome unlock
      edit (λ (r : OrderRecord). record r { locked_shares = r.locked_shares -ℤ unlock })
      take_from positions rec.outcome qty
      add_to available f.book.market.collateral_asset (qty *ℤ price))
      f

abbrev pub is_working : BotState → Bool
is_working working = true
is_working _ = false

-- The order is complete: a state that is terminal stays, and what is still held is let go.
abbrev pub finish : Exec Focus Unit
finish f = (do when (is_working f.order.state) (set_state filled); unwind) f

abbrev pub finish_if_full : Exec Focus Unit
finish_if_full f = when (f.order.done == f.order.qty) finish f

unfoldable pub on_fill : ℤ → ℤ → String → Fee → Exec Focus Unit
unfolding book_purchase book_sale book_fee entry
on_fill qty price liquidity fee f =
    let rec = f.order in
    let collateral = f.book.market.collateral_asset in
    (do
      raise_if (ltb_ℤ (rec.qty -ℤ rec.done) qty) illegal_transition
      (if rec.side == buy then book_purchase qty price else book_sale qty price)
      left ← entry available collateral
      when (ltb_ℤ left (pos 0)) (say (collateral_went_negative rec.client_key))
      held ← entry positions rec.outcome
      when (ltb_ℤ held (pos 0)) (say (position_went_negative rec.client_key rec.outcome))
      book_fee fee qty price liquidity
      edit (λ (r : OrderRecord). record r { done = r.done +ℤ qty })
      finish_if_full)
      f

-- LEGAL
abbrev pub is_legal : BotState → Body → Bool
is_legal pending (order_accepted _ _ _ _ _ _) = true
is_legal working (fill_made _ _ _ _ _ _ _ _) = true
is_legal working (order_cancelled _ _ _) = true
is_legal cancelled (fill_made _ _ _ _ _ _ _ _) = true
is_legal _ _ = false

unfoldable pub on_cancelled : Exec Focus Unit
on_cancelled = do set_state cancelled; unwind

abbrev pub handle : Body → Exec Focus Unit
handle (order_accepted _ _ outcome side qty price) = on_accepted (outcome, (side, (qty, price)))
handle (fill_made _ _ _ _ qty price liquidity fee) = on_fill qty price liquidity fee
handle _ = on_cancelled

-- The order's identity at the venue is the one that the event carries.
abbrev pub check_binding : Option String → String → Exec Focus Unit
check_binding none order_id = bind_order order_id
check_binding (some bound) order_id = raise_if (not (bound == order_id)) illegal_transition

unfoldable pub on_bound_event : String → Body → Exec Focus Unit
unfolding bind_order on_accepted on_fill on_cancelled
on_bound_event order_id body f =
    (do
      check_binding f.order.order_id order_id
      raise_if (not (is_legal f.order.state body)) illegal_transition
      handle body)
      f

unfoldable pub on_order_event : String → String → Body → Exec Book Unit
unfolding on_bound_event
on_order_event client_key order_id body b = elim (lookup client_key b.orders) [
  | none ↦ (err illegal_transition, b)
  | some rec ↦ focus_on client_key rec (on_bound_event order_id body) b
]
