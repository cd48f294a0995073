-- ===== src/Bot/Whole.antt =====
-- safe_bot.py: `_hold` takes everything that an order can owe, or nothing at all.
use financial_engineering_sk.Prelude.{
  ◌≡◌, ◌≢◌, inl, inr, refl, sym, ap, ◌∙◌, subst, ◌==◌, string_eq, int_eq, not, true, false, Option,
  some, String, ok, Exec, gets, ◌>>=◌, ◌>>◌, Bool-cases, eq_sound,
}
use financial_engineering_sk.Prelude.Dict.{lookup, insert}
use financial_engineering_sk.Prelude.Int.{ℤ, pos, ◌+ℤ◌, ◌-ℤ◌, ltb_ℤ, +ℤ-zero}
use financial_engineering_sk.Venue.Messages.{Market, sell}
use financial_engineering_sk.Bot.State.{Focus, OrderRecord}
use financial_engineering_sk.Bot.Balances.{reserved, edit, reserve, lock_shares}
use financial_engineering_sk.Bot.Holds.{when, hold_shares, take_holds}
use financial_engineering_sk.Bot.Holding.{
  value_or_zero, amount, total, Funded, reserve-Funded, after_reserve, after_reserve-Moves, Moves,
}

-- What the two holds leave alone.
record Same (f f' : Focus) : Type 0 where
  market : f'.book.market ≡ f.book.market
  positions : f'.book.positions ≡ f.book.positions
  locked : f'.book.locked ≡ f.book.locked
  outcome : f'.order.outcome ≡ f.order.outcome
  qty : f'.order.qty ≡ f.order.qty

Same-refl : (f : Focus) → Same f f
Same-refl f = record { market = refl; positions = refl; locked = refl; outcome = refl; qty = refl }

Moves-none : (asset : String) (x : ℤ) (f : Focus) → x ≡ pos 0 → Moves asset x f f
Moves-none asset x f e = record {
  total_stays = λ k. refl;
  is_reserved = rw e (sym (+ℤ-zero (amount reserved asset f)));
  others_stay = λ k h. refl;
  others_kept = λ k h. refl;
}

-- The outcome of one of the two holds.
record Step (asset : String) (x : ℤ) (m : Exec Focus Unit) (f : Focus) : Type 0 where
  after : Focus
  runs : m f ≡ (ok tt, after)
  moves : Moves asset x f after
  same : Same f after

-- One of the two holds: of the asset that the market names, noted on the order.
module _ (name : Market → String) (note : ℤ → OrderRecord → OrderRecord)
    (same_outcome : (x : ℤ) (r : OrderRecord) → (note x r).outcome ≡ r.outcome)
    (same_qty : (x : ℤ) (r : OrderRecord) → (note x r).qty ≡ r.qty) where
  abbrev hold_of : ℤ → Exec Focus Unit
  hold_of x = do m ← gets (λ (f : Focus). f.book.market); reserve (name m) x; edit (note x)

  hold-Step :
      (x : ℤ) (f : Focus)
      → ((x == pos 0) ≡ false → Funded (name f.book.market) x f)
      → Step (name f.book.market) x (when (not (x == pos 0)) (hold_of x)) f
  hold-Step x f funded = elim (Bool-cases (x == pos 0)) [
    | inl zero ↦ record {
      after = f;
      runs = rw zero refl;
      moves = Moves-none (name f.book.market) x f (eq_sound x (pos 0) zero);
      same = Same-refl f;
    }
    | inr some_x ↦
        let h = funded some_x in
        let moved = after_reserve (name f.book.market) x h.held h.kept f in
        let m = after_reserve-Moves (name f.book.market) x f h in
        record {
          after = record moved { order = note x f.order };
          runs = rw (some_x, reserve-Funded (name f.book.market) x f h) refl;
          moves = record {
            total_stays = m.total_stays;
            is_reserved = m.is_reserved;
            others_stay = m.others_stay;
            others_kept = m.others_kept;
          };
          same = record {
            market = refl;
            positions = refl;
            locked = refl;
            outcome = same_outcome x f.order;
            qty = same_qty x f.order;
          };
        }
  ]

-- The shares of a sell are there and free.
pub record Free (f : Focus) : Type 0 where
  pub held : ℤ
  pub taken : ℤ
  pub is_held : lookup f.order.outcome f.book.positions ≡ some held
  pub is_taken : lookup f.order.outcome f.book.locked ≡ some taken
  pub enough : ltb_ℤ (held -ℤ taken) f.order.qty ≡ false

Free-Same : (f f' : Focus) → Same f f' → Free f → Free f'
Free-Same f f' s h = record {
  held = h.held;
  taken = h.taken;
  is_held = rw (s.outcome, s.positions) h.is_held;
  is_taken = rw (s.outcome, s.locked) h.is_taken;
  enough = rw s.qty h.enough;
}

-- The balances are those that they were.
record Untouched (f f' : Focus) : Type 0 where
  free : f'.book.available ≡ f.book.available
  kept : f'.book.reserved ≡ f.book.reserved

record SharesStep (side : String) (f : Focus) : Type 0 where
  after : Focus
  runs : when (side == sell) hold_shares f ≡ (ok tt, after)
  untouched : Untouched f after

shares_step : (side : String) (f : Focus) → ((side == sell) ≡ true → Free f) → SharesStep side f
unfolding lock_shares
shares_step side f free = elim (Bool-cases (side == sell)) [
  | inr e ↦ record { after = f; runs = rw e refl; untouched = record { free = refl; kept = refl } }
  | inl e ↦
      let h = free e in
      record {
        after = record f {
          book = record f.book {
            locked = insert f.order.outcome (h.taken +ℤ f.order.qty) f.book.locked;
          };
          order = record f.order { locked_shares = f.order.qty };
        };
        runs = rw (e, h.is_held, h.is_taken, h.enough, h.is_taken) refl;
        untouched = record { free = refl; kept = refl };
      }
]

-- All that `_hold` takes, when it takes it.
pub record Whole (x y : ℤ) (f f' : Focus) : Type 0 where
  pub total_stays : (asset : String) → total asset f' ≡ total asset f
  pub collateral_held :
      amount reserved f.book.market.collateral_asset f'
      ≡ amount reserved f.book.market.collateral_asset f +ℤ x
  pub fee_held :
      amount reserved f.book.market.fee_asset f' ≡ amount reserved f.book.market.fee_asset f +ℤ y

Funded-after :
    (asset other : String) (x y : ℤ) (f f' : Focus)
    → other ≢ asset
    → Moves asset x f f'
    → Funded other y f
    → Funded other y f'
Funded-after asset other x y f f' differs m h = record {
  held = h.held;
  kept = h.kept;
  is_held = m.others_stay other differs ∙ h.is_held;
  is_kept = m.others_kept other differs ∙ h.is_kept;
  enough = h.enough;
}

module _ (side : String) (x y : ℤ) (f : Focus)
    (two_assets : f.book.market.fee_asset ≢ f.book.market.collateral_asset)
    (collateral : (x == pos 0) ≡ false → Funded f.book.market.collateral_asset x f)
    (fee : (y == pos 0) ≡ false → Funded f.book.market.fee_asset y f)
    (shares : (side == sell) ≡ true → Free f) where
  pub take-Whole : (f' : Focus) × (take_holds side x y f ≡ (ok tt, f')) × Whole x y f f'
  unfolding take_holds
  take-Whole =
      let first =
        hold-Step (λ m. m.collateral_asset) (λ n r. record r { reserved_micro = n }) (λ n r. refl)
          (λ n r. refl) x f collateral in
      let fee_then = λ (n : (y == pos 0) ≡ false).
        subst (λ (m : Market). Funded m.fee_asset y first.after) (sym first.same.market)
          (Funded-after f.book.market.collateral_asset f.book.market.fee_asset x y f first.after
            two_assets first.moves (fee n)) in
      let second =
        hold-Step (λ m. m.fee_asset) (λ n r. record r { fee_reserved_micro = n }) (λ n r. refl)
          (λ n r. refl) y first.after fee_then in
      let moved =
        subst (λ (m : Market). Moves m.fee_asset y first.after second.after) first.same.market
          second.moves in
      let third = shares_step side second.after (λ e.
        Free-Same first.after second.after second.same
          (Free-Same f first.after first.same (shares e))) in
      let free = third.untouched.free in
      let kept = third.untouched.kept in
      (
        third.after,
        rw (first.runs, second.runs, third.runs) refl,
        record {
          total_stays = λ k. rw (free, kept) (moved.total_stays k ∙ first.moves.total_stays k);
          collateral_held = rw kept (
              ap value_or_zero
                (moved.others_kept f.book.market.collateral_asset (λ q. two_assets (sym q)))
              ∙ first.moves.is_reserved);
          fee_held = rw kept (
              moved.is_reserved
              ∙ ap (λ (o : Option ℤ). value_or_zero o +ℤ y)
                  (first.moves.others_kept f.book.market.fee_asset two_assets));
        },
      )
