-- ===== src/Bot/Account/Unwound.antt =====
-- safe_bot.py: `_unwind` and `_hold`, in the account of what is reserved.
use financial_engineering_sk.Prelude.{
  refl, ap, ◌∙◌, string_eq, int_eq, ◌==◌, ◌&&◌, unknown_fee_asset, not, String,
}
use financial_engineering_sk.Prelude.Dict.{Dict, lookup}
use financial_engineering_sk.Prelude.Int.{ℤ, pos, zero-+ℤ}
use financial_engineering_sk.Venue.Messages.{Market, sell}
use financial_engineering_sk.Bot.State.{OrderRecord, Focus}
use financial_engineering_sk.Bot.Balances.{locked, edit, take_from, lock_shares, positions}
use financial_engineering_sk.Bot.Holds.{
  unwind, drop_collateral, drop_fee, drop_shares, hold_collateral, hold_fee, hold_shares,
  take_holds, check_holds, hold, check_shares, collateral_obligation, worst_case_fee_micro,
  has_entry, check_needs, needs_of,
}
use financial_engineering_sk.Bot.Triples.{
  Triple, bind-Triple, add_to-Seen, entry-Triple, raise_if-Triple, lift-Triple, when-Triple,
  when_set-Triple,
}
use financial_engineering_sk.Bot.Account.{own, Balanced}
use financial_engineering_sk.Bot.Account.Letting.{
  Unheld, FeeFree, CollateralFree, At-Balanced, drop_collateral-Triple, drop_fee-Triple,
  take_collateral, take_fee, set_collateral, set_fee,
}

module _ (P : Focus → Type 0) where
  check_shares-Triple : Triple P check_shares P
  check_shares-Triple = record {
    run = λ f.
        (bind-Triple P P P _ _ (entry-Triple P positions f.order.outcome) (λ held.
            bind-Triple P P P _ _ (entry-Triple P locked f.order.outcome)
              (λ taken. raise_if-Triple P _ _))).run
          f;
  }

  check_holds-Triple : (side : String) (x y : ℤ) → Triple P (check_holds side x y) P
  unfolding check_holds
  check_holds-Triple side x y = record {
    run = λ f.
        (bind-Triple P P P _ _
            (raise_if-Triple P
              (not (y == pos 0)
                && not (has_entry (lookup f.book.market.fee_asset f.book.available)))
              unknown_fee_asset)
            (λ a.
              bind-Triple P P P _ _
                (lift-Triple P (check_needs f.book.available (needs_of f.book.market x y)))
                (λ a.
                  when-Triple P P (side == sell) check_shares check_shares-Triple
                    (λ t g p. p)))).run
          f;
  }

module _ (asset : String) (m : Market) (orders : Dict String OrderRecord) (others : ℤ) where
  drop_shares-Triple :
      Triple (Unheld asset m orders others) drop_shares (Unheld asset m orders others)
  unfolding own
  drop_shares-Triple = record {
    run = λ f.
        (bind-Triple (Unheld asset m orders others) (Unheld asset m orders others)
            (Unheld asset m orders others) (take_from locked f.order.outcome f.order.locked_shares)
            (λ _. edit (λ (r : OrderRecord). record r { locked_shares = pos 0 }))
            (add_to-Seen _ locked _ _ tt) (λ a. record { run = λ g p b h. p })).run
          f;
  }

  pub unwind-Triple : Triple (Balanced asset m orders others) unwind (Unheld asset m orders others)
  unfolding unwind
  unwind-Triple =
      bind-Triple _ (CollateralFree asset m orders others) _ _ _
        (when_set-Triple _ _ (λ (r : OrderRecord). r.reserved_micro) drop_collateral
          (drop_collateral-Triple asset m orders others) (λ f zero p. (p, zero)))
        (λ a.
          bind-Triple _ (Unheld asset m orders others) _ _ _
            (when_set-Triple _ _ (λ (r : OrderRecord). r.fee_reserved_micro) drop_fee
              (drop_fee-Triple asset m orders others)
              (λ f zero ((e, h, l), none_held). (e, h, l, none_held, zero)))
            (λ a.
              when_set-Triple _ _ (λ (r : OrderRecord). r.locked_shares) drop_shares
                drop_shares-Triple (λ f zero p. p)))

  pub unwind-Balanced :
      Triple (Balanced asset m orders others) unwind (Balanced asset m orders others)
  unwind-Balanced = record {
    run = λ f p a h. let (e, o, l, _, _) = unwind-Triple.run f p a h in (e, o, l);
  }

  hold_collateral-Triple :
      (x : ℤ)
      → Triple (Unheld asset m orders others) (hold_collateral x) (FeeFree asset m orders others)
  hold_collateral-Triple x = record {
    run = λ f (e, h, l, none_held, no_fee) a r.
        let end =
          (take_collateral asset m orders others f.book.market.collateral_asset f.order x
              (ap (λ (n : Market). n.collateral_asset) e) (rw none_held (zero-+ℤ x))).run
            f (e, h, refl, l) a r in
        (
          At-Balanced asset m orders others (set_collateral x f.order) (hold_collateral x f).1 end,
          ap (λ (n : OrderRecord). n.fee_reserved_micro) end.2 ∙ no_fee,
        );
  }

  hold_fee-Triple :
      (x : ℤ) → Triple (FeeFree asset m orders others) (hold_fee x) (Balanced asset m orders others)
  hold_fee-Triple x = record {
    run = λ f ((e, h, l), no_fee) a r.
        At-Balanced asset m orders others (set_fee x f.order) (hold_fee x f).1 (
          (take_fee asset m orders others f.book.market.fee_asset f.order x
              (ap (λ (n : Market). n.fee_asset) e) (rw no_fee (zero-+ℤ x))).run
            f (e, h, refl, l) a r);
  }

  lock_shares-Triple :
      (outcome : String) (qty : ℤ)
      → Triple
          (Balanced asset m orders others)
          (lock_shares outcome qty)
          (Balanced asset m orders others)
  unfolding lock_shares
  lock_shares-Triple outcome qty =
      bind-Triple _ (Balanced asset m orders others) _ _ _ (entry-Triple _ positions outcome)
        (λ held.
          bind-Triple _ (Balanced asset m orders others) _ _ _ (entry-Triple _ locked outcome)
            (λ taken.
              bind-Triple _ (Balanced asset m orders others) _ _ _ (raise_if-Triple _ _ _)
                (λ a. add_to-Seen _ locked outcome qty tt)))

  hold_shares-Triple :
      Triple (Balanced asset m orders others) hold_shares (Balanced asset m orders others)
  unfolding own
  hold_shares-Triple = record {
    run = λ f.
        (bind-Triple (Balanced asset m orders others) (Balanced asset m orders others)
            (Balanced asset m orders others) _ _ (lock_shares-Triple f.order.outcome f.order.qty)
            (λ a. record { run = λ g p b h. p })).run
          f;
  }

  take_holds-Triple :
      (side : String) (x y : ℤ)
      → Triple (Unheld asset m orders others) (take_holds side x y) (Balanced asset m orders others)
  unfolding take_holds
  take_holds-Triple side x y =
      bind-Triple _ (FeeFree asset m orders others) _ _ _
        (when-Triple _ _ (not (x == pos 0)) (hold_collateral x) (hold_collateral-Triple x)
          (λ t f (e, h, l, none_held, no_fee). ((e, h, l), no_fee)))
        (λ a.
          bind-Triple _ (Balanced asset m orders others) _ _ _
            (when-Triple _ _ (not (y == pos 0)) (hold_fee y) (hold_fee-Triple y) (λ t f p. p.0))
            (λ a. when-Triple _ _ (side == sell) hold_shares hold_shares-Triple (λ t f p. p)))

  pub hold-Triple : Triple (Unheld asset m orders others) hold (Balanced asset m orders others)
  unfolding hold
  hold-Triple = record {
    run = λ f.
        (bind-Triple _ (Unheld asset m orders others) _ _ _
            (check_holds-Triple (Unheld asset m orders others) f.order.side
              (collateral_obligation f.order.side f.order.qty f.order.price_micro)
              (worst_case_fee_micro f.book.market f.order.side f.order.qty f.order.price_micro))
            (λ a.
              take_holds-Triple f.order.side
                (collateral_obligation f.order.side f.order.qty f.order.price_micro)
                (worst_case_fee_micro f.book.market f.order.side f.order.qty
                  f.order.price_micro))).run
          f;
  }
