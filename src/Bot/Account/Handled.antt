-- ===== src/Bot/Account/Handled.antt =====
-- safe_bot.py: an event of an order, from its fee to the whole handler, in the account of what is
-- reserved.
use financial_engineering_sk.Prelude.{
  refl, string_eq, int_eq, nat_eq, ◌==◌, not, if◌then◌else◌, true, false, Bool, String, Option,
  none, some, Exec, ◌>>=◌, ◌>>◌, illegal_transition, unknown_fee_asset,
}
use financial_engineering_sk.Prelude.Dict.{Dict, lookup}
use financial_engineering_sk.Prelude.Int.{ℤ, pos, neg, ◌+ℤ◌, ◌-ℤ◌, ltb_ℤ}
use financial_engineering_sk.Venue.Messages.{
  Market, Fee, Body, order_accepted, fill_made, order_cancelled, market_determined, market_resolved,
  other, buy, rate_ppm_for, expected_profit_fee_micro,
}
use financial_engineering_sk.Bot.State.{
  cancelled, OrderRecord, collateral_went_negative, position_went_negative, fee_rate_differs,
  fee_amount_differs, asset_went_negative, Focus,
}
use financial_engineering_sk.Bot.Balances.{available, fees_paid, positions, add_to, entry}
use financial_engineering_sk.Bot.Holds.{has_entry, when}
use financial_engineering_sk.Bot.Sending.{say}
use financial_engineering_sk.Bot.Fills.{
  book_fee, book_purchase, book_sale, on_fill, on_cancelled, handle, check_binding, is_legal,
  on_bound_event,
}
use financial_engineering_sk.Bot.Triples.{
  Triple, bind-Triple, add_to-Seen, entry-Triple, raise_if-Triple,
}
use financial_engineering_sk.Bot.Account.{own}
use financial_engineering_sk.Bot.Account.Unwound.{unwind-Balanced}
use financial_engineering_sk.Bot.Account.Booked.{
  Kept, when-say-Triple, edit-Kept, set_state-Kept, bind_order-Kept, on_accepted-Kept,
  release_fee_hold-Kept, book_purchase-Kept, book_sale-Kept, check_fee_hold-Kept,
  finish_if_full-Kept,
}

module _ (asset : String) (m : Market) (orders : Dict String OrderRecord) (others : ℤ) where
  abbrev Stays : Exec Focus Unit → Type 0
  Stays method = Triple (Kept asset m orders others) method (Kept asset m orders others)

  then_all :
      {A : Type 0} (first : Exec Focus A) (next : A → Exec Focus Unit)
      → Triple (Kept asset m orders others) first (Kept asset m orders others)
      → ((a : A) → Stays (next a))
      → Stays (first >>= next)
  then_all first next s t = bind-Triple _ (Kept asset m orders others) _ first next s t

  charged_fee-Kept :
      (fee : Fee)
      → Stays (do
        add_to available fee.asset (neg fee.amount_micro)
        add_to fees_paid fee.asset fee.amount_micro
        left ← entry available fee.asset
        when (ltb_ℤ left (pos 0)) (say (asset_went_negative fee.asset)))
  charged_fee-Kept fee = then_all _ _ (add_to-Seen _ available _ _ tt) (λ a.
      then_all _ _ (add_to-Seen _ fees_paid _ _ tt)
        (λ a. then_all _ _ (entry-Triple _ available _) (λ left. when-say-Triple _ _ _)))

  book_fee-Kept :
      (fee : Fee) (qty price : ℤ) (liquidity : String) → Stays (book_fee fee qty price liquidity)
  unfolding book_fee
  book_fee-Kept fee qty price liquidity = record {
    run = λ f.
        let market = f.book.market in
        let rate = rate_ppm_for market liquidity in
        let amount = expected_profit_fee_micro market qty price fee.rate_ppm in
        (then_all _ _
            (raise_if-Triple _ (not (has_entry (lookup fee.asset f.book.available)))
              unknown_fee_asset)
            (λ a. then_all _ _ (release_fee_hold-Kept asset m orders others qty) (λ held.
              then_all _ _ (check_fee_hold-Kept asset m orders others market fee held) (λ a.
                then_all _ _
                  (when-say-Triple _ (not (fee.rate_ppm == pos rate))
                    (fee_rate_differs fee.rate_ppm liquidity rate))
                  (λ a.
                    then_all _ _
                      (when-say-Triple _ (not (fee.amount_micro == amount))
                        (fee_amount_differs fee.amount_micro amount fee.rate_ppm))
                      (λ a. charged_fee-Kept fee)))))).run
          f;
  }

  traded-Kept :
      (test : Bool) (qty price : ℤ)
      → Stays (if test then book_purchase qty price else book_sale qty price)
  traded-Kept true qty price = book_purchase-Kept asset m orders others qty price
  traded-Kept false qty price = book_sale-Kept asset m orders others qty price

  on_fill-Kept :
      (qty price : ℤ) (liquidity : String) (fee : Fee) → Stays (on_fill qty price liquidity fee)
  unfolding on_fill own
  on_fill-Kept qty price liquidity fee = record {
    run = λ f.
        (then_all _ _
            (raise_if-Triple _ (ltb_ℤ (f.order.qty -ℤ f.order.done) qty) illegal_transition)
            (λ a. then_all _ _ (traded-Kept (f.order.side == buy) qty price) (λ a.
              then_all _ _ (entry-Triple _ available f.book.market.collateral_asset) (λ left.
                then_all _ _
                  (when-say-Triple _ (ltb_ℤ left (pos 0))
                    (collateral_went_negative f.order.client_key))
                  (λ a. then_all _ _ (entry-Triple _ positions f.order.outcome) (λ held.
                    then_all _ _
                      (when-say-Triple _ (ltb_ℤ held (pos 0))
                        (position_went_negative f.order.client_key f.order.outcome))
                      (λ a. then_all _ _ (book_fee-Kept fee qty price liquidity) (λ a.
                        then_all _ _
                          (edit-Kept asset m orders others
                            (λ (r : OrderRecord). record r { done = r.done +ℤ qty }) (λ r. refl))
                          (λ a. finish_if_full-Kept asset m orders others))))))))).run
          f;
  }

  on_cancelled-Kept : Stays on_cancelled
  unfolding on_cancelled
  on_cancelled-Kept =
      then_all _ _ (set_state-Kept asset m orders others cancelled)
        (λ a. unwind-Balanced asset m orders others)

  handle-Kept : (body : Body) → Stays (handle body)
  handle-Kept (order_accepted id k o s q p) =
      on_accepted-Kept asset m orders others (o, (s, (q, p)))
  handle-Kept (fill_made id k o s q p l fee) = on_fill-Kept q p l fee
  handle-Kept (order_cancelled id k remaining) = on_cancelled-Kept
  handle-Kept (market_determined ns d) = on_cancelled-Kept
  handle-Kept (market_resolved ns d w) = on_cancelled-Kept
  handle-Kept (other kind) = on_cancelled-Kept

  check_binding-Kept : (bound : Option String) (id : String) → Stays (check_binding bound id)
  check_binding-Kept none id = bind_order-Kept asset m orders others id
  check_binding-Kept (some bound) id = raise_if-Triple _ (not (bound == id)) illegal_transition

  -- An event of an order keeps the account of what is reserved.
  pub on_bound_event-Kept : (id : String) (body : Body) → Stays (on_bound_event id body)
  unfolding on_bound_event
  on_bound_event-Kept id body = record {
    run = λ f.
        (then_all _ _ (check_binding-Kept f.order.order_id id) (λ a.
            then_all _ _ (raise_if-Triple _ (not (is_legal f.order.state body)) illegal_transition)
              (λ a. handle-Kept body))).run
          f;
  }
