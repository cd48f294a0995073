-- ===== src/Bot/Account/Booked.antt =====
-- safe_bot.py: the handlers of an order's events, in the account of what is reserved.
use financial_engineering_sk.Prelude.{
  ◌≡◌, refl, ap, string_eq, int_eq, nat_eq, pair_eq, ◌==◌, not, Bool, String, ok, pure, ◌>>◌,
  Bool-cases, inl, inr,
}
use financial_engineering_sk.Prelude.Dict.{Dict}
use financial_engineering_sk.Prelude.Int.{ℤ, pos, neg, ◌+ℤ◌, ◌-ℤ◌, ltb_ℤ, int_laws}
use financial_engineering_sk.Prelude.Division.{◌*ℤ◌}
use financial_engineering_sk.Venue.Messages.{Market, Fee}
use financial_engineering_sk.Bot.State.{
  BotState, filled, working, OrderRecord, Alert, bought_above_the_bid, sold_below_the_offer, Focus,
}
use financial_engineering_sk.Bot.Balances.{available, positions, locked, edit, release}
use financial_engineering_sk.Bot.Holds.{min_ℤ, worst_case_fee_micro, when, hold, unwind}
use financial_engineering_sk.Bot.Sending.{set_state, say, bind_order}
use financial_engineering_sk.Bot.Fills.{
  Terms, adopt, rehold, on_accepted, release_fee_hold, check_fee_hold, book_purchase, book_sale,
  is_working, finish, finish_if_full, terms_of,
}
use financial_engineering_sk.Bot.Triples.{
  Triple, bind-Triple, add_to-Seen, lift-Triple, when-Triple, Seen,
}
use financial_engineering_sk.Bot.Account.{own, Balanced, release-Level}
use financial_engineering_sk.Bot.Account.Letting.{
  Unheld, noted-At, collateral-At, fee-At, At-Balanced,
}
use financial_engineering_sk.Bot.Account.Unwound.{unwind-Triple, unwind-Balanced, hold-Triple}

minus_neg : (a b : ℤ) → a +ℤ neg b ≡ a -ℤ b
minus_neg a b = omega int_laws

pub say-Triple :
    (Q : Market → Dict String OrderRecord → OrderRecord → Dict String ℤ → Type 0) (a : Alert)
    → Triple (Seen Q) (say a) (Seen Q)
say-Triple Q a = record { run = λ f p b h. p }

pub when-say-Triple :
    (Q : Market → Dict String OrderRecord → OrderRecord → Dict String ℤ → Type 0) (test : Bool)
    (a : Alert)
    → Triple (Seen Q) (when test (say a)) (Seen Q)
when-say-Triple Q test a = when-Triple (Seen Q) (Seen Q) test (say a) (say-Triple Q a) (λ t f p. p)

module _ (asset : String) (m : Market) (orders : Dict String OrderRecord) (others : ℤ) where
  abbrev pub Kept : Focus → Type 0
  Kept = Balanced asset m orders others

  -- A change of the record that touches neither of the two holds.
  pub edit-Kept :
      (note : OrderRecord → OrderRecord)
      → ((r : OrderRecord) → own asset m (note r) ≡ own asset m r)
      → Triple Kept (edit note) Kept
  edit-Kept note same = record { run = λ f (e, h, l) a r. (e, h, rw (same f.order) l) }

  pub set_state-Kept : (s : BotState) → Triple Kept (set_state s) Kept
  unfolding own
  set_state-Kept s = edit-Kept _ (λ r. refl)

  pub bind_order-Kept : (id : String) → Triple Kept (bind_order id) Kept
  unfolding bind_order own
  bind_order-Kept id = record { run = λ f p a h. p }

  adopted-Unheld :
      (terms : Terms)
      → Triple (Unheld asset m orders others) (edit (adopt terms)) (Unheld asset m orders others)
  unfolding own
  adopted-Unheld (outcome, (side, (qty, price))) = record { run = λ f p a h. p }

  rehold-Kept : (terms : Terms) → Triple Kept (rehold terms) Kept
  unfolding own
  rehold-Kept terms = record {
    run = λ f.
        (bind-Triple Kept Kept Kept _ _ (say-Triple _ _) (λ a.
            bind-Triple Kept (Unheld asset m orders others) Kept _ _
              (unwind-Triple asset m orders others)
              (λ a.
                bind-Triple (Unheld asset m orders others) (Unheld asset m orders others) Kept
                  (edit (adopt terms)) (λ _. hold) (adopted-Unheld terms)
                  (λ a. hold-Triple asset m orders others)))).run
          f;
  }

  pub on_accepted-Kept : (terms : Terms) → Triple Kept (on_accepted terms) Kept
  unfolding on_accepted
  on_accepted-Kept terms = record {
    run = λ f.
        (bind-Triple Kept Kept Kept _ _
            (when-Triple Kept Kept (not (terms == terms_of f.order)) (rehold terms)
              (rehold-Kept terms) (λ t g p. p))
            (λ a. set_state-Kept working)).run
          f;
  }

  abbrev less_fee : ℤ → OrderRecord → OrderRecord
  less_fee x r = record r { fee_reserved_micro = r.fee_reserved_micro -ℤ x }

  abbrev less_collateral : ℤ → OrderRecord → OrderRecord
  less_collateral x r = record r { reserved_micro = r.reserved_micro -ℤ x }

  fee_slice-Kept :
      (key : String) (x : ℤ)
      → key ≡ m.fee_asset
      → Triple Kept (do release key x; edit (less_fee x)) Kept
  fee_slice-Kept key x q = record {
    run = λ g (e, h, l) a r.
        At-Balanced asset m orders others (less_fee x g.order)
          ((do release key x; edit (less_fee x)) g).1
          ((noted-At asset m orders others g.order (release key x) (less_fee x) _
              (release-Level asset m orders g.order key x _)
              (fee-At asset m orders others key g.order (neg x) _ q (minus_neg _ x))).run
            g (e, h, refl, l) a r);
  }

  collateral_slice-Kept :
      (key : String) (x : ℤ)
      → key ≡ m.collateral_asset
      → Triple Kept (do release key x; edit (less_collateral x)) Kept
  collateral_slice-Kept key x q = record {
    run = λ g (e, h, l) a r.
        At-Balanced asset m orders others (less_collateral x g.order)
          ((do release key x; edit (less_collateral x)) g).1
          ((noted-At asset m orders others g.order (release key x) (less_collateral x) _
              (release-Level asset m orders g.order key x _)
              (collateral-At asset m orders others key g.order (neg x) _ q (minus_neg _ x))).run
            g (e, h, refl, l) a r);
  }

  pub release_fee_hold-Kept : (qty : ℤ) → Triple Kept (release_fee_hold qty) Kept
  unfolding release_fee_hold
  release_fee_hold-Kept qty = record {
    run = λ f p.
        let x =
          min_ℤ (worst_case_fee_micro f.book.market f.order.side qty f.order.price_micro)
            f.order.fee_reserved_micro in
        (bind-Triple Kept Kept Kept
            (when (not (x == pos 0)) (do release f.book.market.fee_asset x; edit (less_fee x)))
            (λ _. pure x)
            (when-Triple Kept Kept (not (x == pos 0))
              (do release f.book.market.fee_asset x; edit (less_fee x))
              (fee_slice-Kept f.book.market.fee_asset x (ap (λ (n : Market). n.fee_asset) p.0))
              (λ t g p. p))
            (λ a. lift-Triple Kept (ok x))).run
          f p;
  }

  pub book_purchase-Kept : (qty price : ℤ) → Triple Kept (book_purchase qty price) Kept
  unfolding book_purchase
  book_purchase-Kept qty price = record {
    run = λ f p.
        let key = f.book.market.collateral_asset in
        let x = min_ℤ (qty *ℤ f.order.price_micro) f.order.reserved_micro in
        (bind-Triple Kept Kept Kept _ _
            (when-say-Triple _ (ltb_ℤ f.order.price_micro price)
              (bought_above_the_bid f.order.client_key))
            (λ a.
              bind-Triple Kept Kept Kept
                (when (not (x == pos 0)) (do release key x; edit (less_collateral x))) _
                (when-Triple Kept Kept (not (x == pos 0))
                  (do release key x; edit (less_collateral x))
                  (collateral_slice-Kept key x (ap (λ (n : Market). n.collateral_asset) p.0))
                  (λ t g p. p))
                (λ a.
                  bind-Triple Kept Kept Kept _ _
                    (add_to-Seen _ available key (neg (qty *ℤ price)) tt)
                    (λ a. add_to-Seen _ positions f.order.outcome qty tt)))).run
          f p;
  }

  pub book_sale-Kept : (qty price : ℤ) → Triple Kept (book_sale qty price) Kept
  unfolding book_sale own
  book_sale-Kept qty price = record {
    run = λ f.
        let x = min_ℤ qty f.order.locked_shares in
        (bind-Triple Kept Kept Kept _ _
            (when-say-Triple _ (ltb_ℤ price f.order.price_micro)
              (sold_below_the_offer f.order.client_key))
            (λ a.
              bind-Triple Kept Kept Kept _ _ (add_to-Seen _ locked f.order.outcome (neg x) tt) (λ a.
                bind-Triple Kept Kept Kept _ _
                  (edit-Kept
                    (λ (r : OrderRecord). record r { locked_shares = r.locked_shares -ℤ x })
                    (λ r. refl))
                  (λ a.
                    bind-Triple Kept Kept Kept _ _
                      (add_to-Seen _ positions f.order.outcome (neg qty) tt)
                      (λ a.
                        add_to-Seen _ available f.book.market.collateral_asset (qty *ℤ price)
                          tt))))).run
          f;
  }

  pub check_fee_hold-Kept :
      (n : Market) (fee : Fee) (held : ℤ) → Triple Kept (check_fee_hold n fee held) Kept
  check_fee_hold-Kept n fee held = elim (Bool-cases (not (fee.asset == n.fee_asset))) [
    | inl e ↦ rw e (say-Triple _ _)
    | inr e ↦ rw e (when-say-Triple _ _ _)
  ]

  finish-Kept : Triple Kept finish Kept
  finish-Kept = record {
    run = λ f.
        (bind-Triple Kept Kept Kept (when (is_working f.order.state) (set_state filled))
            (λ _. unwind)
            (when-Triple Kept Kept (is_working f.order.state) (set_state filled)
              (set_state-Kept filled) (λ t g p. p))
            (λ a. unwind-Balanced asset m orders others)).run
          f;
  }

  pub finish_if_full-Kept : Triple Kept finish_if_full Kept
  finish_if_full-Kept = record {
    run = λ f.
        (when-Triple Kept Kept (f.order.done == f.order.qty) finish finish-Kept (λ t g p. p)).run f;
  }
