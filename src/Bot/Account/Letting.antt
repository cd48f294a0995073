-- ===== src/Bot/Account/Letting.antt =====
-- safe_bot.py: taking and letting go of the holds of an order, in the account of what is reserved.
use financial_engineering_sk.Prelude.{
  ◌≡◌, refl, sym, ap, ◌∙◌, string_eq, int_eq, ◌==◌, Bool, true, false, String, Exec, ◌>>◌,
}
use financial_engineering_sk.Prelude.Dict.{Dict, lookup}
use financial_engineering_sk.Prelude.Int.{ℤ, pos, neg, ◌+ℤ◌, +ℤ-zero, int_laws}
use financial_engineering_sk.Venue.Messages.{Market}
use financial_engineering_sk.Bot.State.{OrderRecord, Focus}
use financial_engineering_sk.Bot.Balances.{edit, release, reserve}
use financial_engineering_sk.Bot.Holds.{drop_collateral, drop_fee}
use financial_engineering_sk.Bot.Holding.{value_or_zero}
use financial_engineering_sk.Bot.Triples.{Triple, bind-Triple, Seen}
use financial_engineering_sk.Bot.Account.{
  part, own, Level, Balanced, release-Level, reserve-Level, edit-Level,
}

regroup_first : (o r g x : ℤ) → o +ℤ (r +ℤ g) +ℤ x ≡ o +ℤ (r +ℤ x +ℤ g)
regroup_first o r g x = omega int_laws

regroup_second : (o r g x : ℤ) → o +ℤ (g +ℤ r) +ℤ x ≡ o +ℤ (g +ℤ (r +ℤ x))
regroup_second o r g x = omega int_laws

first_moves :
    (b : Bool) (others r g x r' : ℤ)
    → r +ℤ x ≡ r'
    → others +ℤ (part b r +ℤ g) +ℤ part b x ≡ others +ℤ (part b r' +ℤ g)
first_moves true others r g x r' h = rw (sym h) (regroup_first others r g x)
first_moves false others r g x r' h = +ℤ-zero _

second_moves :
    (b : Bool) (others r g x r' : ℤ)
    → r +ℤ x ≡ r'
    → others +ℤ (g +ℤ part b r) +ℤ part b x ≡ others +ℤ (g +ℤ part b r')
second_moves true others r g x r' h = rw (sym h) (regroup_second others r g x)
second_moves false others r g x r' h = +ℤ-zero _

negated : (a : ℤ) → a +ℤ neg a ≡ pos 0
negated a = omega int_laws

abbrev pub set_collateral : ℤ → OrderRecord → OrderRecord
set_collateral x r = record r { reserved_micro = x }

abbrev pub set_fee : ℤ → OrderRecord → OrderRecord
set_fee x r = record r { fee_reserved_micro = x }

module _ (asset : String) (m : Market) (orders : Dict String OrderRecord) (others : ℤ) where
  abbrev pub At : OrderRecord → Focus → Type 0
  At r = Level asset m orders r (others +ℤ own asset m r)

  pub collateral-At :
      (key : String) (r : OrderRecord) (x r' : ℤ)
      → key ≡ m.collateral_asset
      → r.reserved_micro +ℤ x ≡ r'
      → others +ℤ own asset m r +ℤ part (key == asset) x
        ≡ others +ℤ own asset m (set_collateral r' r)
  unfolding own
  collateral-At key r x r' q h = rw q (first_moves (m.collateral_asset == asset) others _ _ x r' h)

  pub fee-At :
      (key : String) (r : OrderRecord) (x r' : ℤ)
      → key ≡ m.fee_asset
      → r.fee_reserved_micro +ℤ x ≡ r'
      → others +ℤ own asset m r +ℤ part (key == asset) x ≡ others +ℤ own asset m (set_fee r' r)
  unfolding own
  fee-At key r x r' q h = rw q (second_moves (m.fee_asset == asset) others _ _ x r' h)

  pub At-Balanced : (r : OrderRecord) (f : Focus) → At r f → Balanced asset m orders others f
  At-Balanced r f (e, h, i, l) = (e, h, l ∙ ap (λ s. others +ℤ own asset m s) (sym i))

  -- A method that moves `x` of the asset in or out of `reserved`, and then writes it on the order.
  pub noted-At :
      (r : OrderRecord) (move : Exec Focus Unit) (note : OrderRecord → OrderRecord) (w : ℤ)
      → Triple (At r) move (Level asset m orders r w)
      → w ≡ others +ℤ own asset m (note r)
      → Triple (At r) (do move; edit note) (At (note r))
  noted-At r move note w moved e =
      bind-Triple (At r) (Level asset m orders r w) (At (note r)) move (λ _. edit note) moved
        (λ a. record {
          run = λ f l b h.
              let (p, q, i, n) = (edit-Level asset m orders r note w).run f l b h in
              (p, q, i, n ∙ e);
        })

  -- A slice of the hold of the collateral, or of that of the fee, is let go.
  pub let_collateral_go :
      (key : String) (r : OrderRecord) (x r' : ℤ)
      → key ≡ m.collateral_asset
      → r.reserved_micro +ℤ neg x ≡ r'
      → Triple (At r) (do release key x; edit (set_collateral r')) (At (set_collateral r' r))
  let_collateral_go key r x r' q h =
      noted-At r (release key x) (set_collateral r') _ (release-Level asset m orders r key x _)
        (collateral-At key r (neg x) r' q h)

  pub let_fee_go :
      (key : String) (r : OrderRecord) (x r' : ℤ)
      → key ≡ m.fee_asset
      → r.fee_reserved_micro +ℤ neg x ≡ r'
      → Triple (At r) (do release key x; edit (set_fee r')) (At (set_fee r' r))
  let_fee_go key r x r' q h =
      noted-At r (release key x) (set_fee r') _ (release-Level asset m orders r key x _)
        (fee-At key r (neg x) r' q h)

  pub take_collateral :
      (key : String) (r : OrderRecord) (x : ℤ)
      → key ≡ m.collateral_asset
      → r.reserved_micro +ℤ x ≡ x
      → Triple (At r) (do reserve key x; edit (set_collateral x)) (At (set_collateral x r))
  take_collateral key r x q h =
      noted-At r (reserve key x) (set_collateral x) _ (reserve-Level asset m orders r key x _)
        (collateral-At key r x x q h)

  pub take_fee :
      (key : String) (r : OrderRecord) (x : ℤ)
      → key ≡ m.fee_asset
      → r.fee_reserved_micro +ℤ x ≡ x
      → Triple (At r) (do reserve key x; edit (set_fee x)) (At (set_fee x r))
  take_fee key r x q h =
      noted-At r (reserve key x) (set_fee x) _ (reserve-Level asset m orders r key x _)
        (fee-At key r x x q h)

  -- Nothing is held for the fee, and then nothing at all.
  abbrev pub FeeFree : Focus → Type 0
  FeeFree f = Balanced asset m orders others f × (f.order.fee_reserved_micro ≡ pos 0)

  abbrev pub CollateralFree : Focus → Type 0
  CollateralFree f = Balanced asset m orders others f × (f.order.reserved_micro ≡ pos 0)

  abbrev pub Unheld : Focus → Type 0
  Unheld = Seen λ market held order kept.
      (market ≡ m)
      × (held ≡ orders)
      × (value_or_zero (lookup asset kept) ≡ others +ℤ own asset m order)
      × (order.reserved_micro ≡ pos 0)
      × (order.fee_reserved_micro ≡ pos 0)

  pub drop_collateral-Triple :
      Triple (Balanced asset m orders others) drop_collateral CollateralFree
  drop_collateral-Triple = record {
    run = λ f (e, h, l) a r.
        let end =
          (let_collateral_go f.book.market.collateral_asset f.order f.order.reserved_micro (pos 0)
              (ap (λ (n : Market). n.collateral_asset) e) (negated f.order.reserved_micro)).run
            f (e, h, refl, l) a r in
        (
          At-Balanced (set_collateral (pos 0) f.order) (drop_collateral f).1 end,
          ap (λ (n : OrderRecord). n.reserved_micro) end.2,
        );
  }

  pub drop_fee-Triple : Triple CollateralFree drop_fee Unheld
  drop_fee-Triple = record {
    run = λ f ((e, h, l), zero) a r.
        let end =
          (let_fee_go f.book.market.fee_asset f.order f.order.fee_reserved_micro (pos 0)
              (ap (λ (n : Market). n.fee_asset) e) (negated f.order.fee_reserved_micro)).run
            f (e, h, refl, l) a r in
        let (e', h', l') = At-Balanced (set_fee (pos 0) f.order) (drop_fee f).1 end in
        (
          e',
          h',
          l',
          ap (λ (n : OrderRecord). n.reserved_micro) end.2 ∙ zero,
          ap (λ (n : OrderRecord). n.fee_reserved_micro) end.2,
        );
  }
