-- ===== src/Bot/Account/Covered.antt =====
-- safe_bot.py: the stream of events, and what the orders hold of what is reserved.
use financial_engineering_sk.Prelude.{
  ◌≡◌, string_eq, int_eq, nat_eq, ◌==◌, not, if◌then◌else◌, true, false, Bool, String, Option, none,
  some, List, [], ◌∷◌, contains, Result, ok, lift, gets, modify, ◌>>=◌,
}
use financial_engineering_sk.Prelude.Dict.{Dict, lookup_or, insert}
use financial_engineering_sk.Prelude.Int.{ℤ, pos}
use financial_engineering_sk.Venue.Messages.{
  Event, Body, order_accepted, fill_made, order_cancelled, market_determined, market_resolved,
  other,
}
use financial_engineering_sk.Bot.State.{
  Book, Authority, Alert, alert, position_break_at_settlement, payout_differs, Fraction,
}
use financial_engineering_sk.Bot.Settlement.{
  on_determined, on_resolved, distribution, credit_of, still_open, alert_open, alert_breaks,
  alert_provisional, credit_payout, pay_out, payout_for, settle,
}
use financial_engineering_sk.Bot.Intake.{on_body, on_event}
use financial_engineering_sk.Bot.Triples.{Triple, bind-Triple, lift-Triple}
use financial_engineering_sk.Bot.Account.Backing.{IsBacked, on_order_event-IsBacked}

module _ (asset : String) where
  alert_open-IsBacked :
      (keys : List String) (b : Book) → IsBacked asset b → IsBacked asset (alert_open keys b)
  alert_open-IsBacked [] b h = h
  alert_open-IsBacked (k ∷ ks) b h = h

  told-IsBacked :
      (test : Bool) (a : Alert) (b : Book)
      → IsBacked asset b
      → IsBacked asset (if test then alert a b else b)
  told-IsBacked true a b h = h
  told-IsBacked false a b h = h

  alert_breaks-IsBacked :
      (outcomes : List String) (held : Dict String ℤ) (b : Book)
      → IsBacked asset b
      → IsBacked asset (alert_breaks outcomes held b)
  unfolding alert_breaks
  alert_breaks-IsBacked [] held b h = h
  alert_breaks-IsBacked (o ∷ outcomes) held b h =
      let theirs = lookup_or (pos 0) o held in
      let ours = lookup_or (pos 0) o b.positions in
      alert_breaks-IsBacked outcomes held _
        (told-IsBacked (not (theirs == ours)) (position_break_at_settlement o theirs ours) b h)

  provisional-IsBacked :
      (credited : ℤ) (market_id : String) (o : Option ℤ) (b : Book)
      → IsBacked asset b
      → IsBacked asset (alert_provisional credited market_id o b)
  provisional-IsBacked credited market_id none b h = h
  provisional-IsBacked credited market_id (some p) b h =
      told-IsBacked (not (p == credited)) (payout_differs credited p market_id) b h

  credit-IsBacked :
      (market_id : String) (credited : ℤ) (o : Option ℤ) (b : Book)
      → IsBacked asset b
      → IsBacked asset (credit_payout market_id credited o b).1
  credit-IsBacked market_id credited none b h = h
  credit-IsBacked market_id credited (some balance) b h = h

  pay_out-IsBacked :
      (market_id : String) (credit : ℤ × Fraction)
      → Triple (IsBacked asset) (pay_out market_id credit) (IsBacked asset)
  unfolding pay_out
  pay_out-IsBacked market_id (credited, dust) = record {
    run = λ b h a r.
        credit-IsBacked market_id credited _ _ (provisional-IsBacked credited market_id _ _ h);
  }

  modify-IsBacked :
      (change : Book → Book)
      → ((b : Book) → IsBacked asset b → IsBacked asset (change b))
      → Triple (IsBacked asset) (modify change) (IsBacked asset)
  modify-IsBacked change keeps = record { run = λ b h a r. keeps b h }

  credit_all-IsBacked :
      (market_id : String) (ns : List ℤ) (d : ℤ) (held : Dict String ℤ)
      → Triple
          (IsBacked asset)
          (do
            market ← gets (λ (b : Book). b.market)
            credit ← lift (payout_for market ns d held)
            pay_out market_id credit)
          (IsBacked asset)
  credit_all-IsBacked market_id ns d held = record {
    run = λ b.
        (bind-Triple (IsBacked asset) (IsBacked asset) (IsBacked asset) _ _
            (lift-Triple _ (payout_for b.market ns d held)) (pay_out-IsBacked market_id)).run
          b;
  }

  settle-IsBacked :
      (market_id : String) (ns : List ℤ) (d : ℤ) (checked : Result (Unit {0}))
      (answer : Result (Dict String ℤ))
      → Triple (IsBacked asset) (settle market_id ns d checked answer) (IsBacked asset)
  settle-IsBacked market_id ns d checked answer =
      bind-Triple _ (IsBacked asset) _ _ _ (lift-Triple _ checked) (λ a.
        bind-Triple _ (IsBacked asset) _ _ _
          (modify-IsBacked (λ (b : Book). alert_open (still_open b.orders) b)
            (λ b. alert_open-IsBacked (still_open b.orders) b))
          (λ a. bind-Triple _ (IsBacked asset) _ _ _ (lift-Triple _ answer) (λ held.
            bind-Triple _ (IsBacked asset) _ _ _
              (modify-IsBacked (λ (b : Book). alert_breaks b.market.outcomes held b)
                (λ b. alert_breaks-IsBacked b.market.outcomes held b))
              (λ a. credit_all-IsBacked market_id ns d held))))

  -- By a test, one of two outcomes.
  either-IsBacked :
      (test : Bool) (x y : Result (Unit {0}) × Book)
      → ((a : Unit {0}) → x.0 ≡ ok a → IsBacked asset x.1)
      → ((a : Unit {0}) → y.0 ≡ ok a → IsBacked asset y.1)
      → (a : Unit {0}) → (if test then x else y).0 ≡ ok a
      → IsBacked asset (if test then x else y).1
  either-IsBacked true x y p q = p
  either-IsBacked false x y p q = q

  on_determined-IsBacked :
      (authority : Authority) (market_id : String) (ns : List ℤ) (d : ℤ)
      → Triple (IsBacked asset) (on_determined authority market_id ns d) (IsBacked asset)
  unfolding on_determined
  on_determined-IsBacked authority market_id ns d = record {
    run = λ b h.
        either-IsBacked (contains b.settled market_id) _ _ (λ a r. h)
          ((bind-Triple (IsBacked asset) (IsBacked asset) (IsBacked asset) _ _
              (lift-Triple _ (distribution b.market ns d))
              (λ a.
                bind-Triple (IsBacked asset) (IsBacked asset) (IsBacked asset) _ _
                  (lift-Triple _ (credit_of b.market ns d (authority market_id)))
                  (λ credit.
                    modify-IsBacked
                      (λ (b : Book). record b {
                        provisional_credit = insert market_id credit.0 b.provisional_credit;
                      })
                      (λ b h. h)))).run
            b h);
  }

  on_resolved-IsBacked :
      (authority : Authority) (market_id : String) (ns : List ℤ) (d : ℤ)
      → Triple (IsBacked asset) (on_resolved authority market_id ns d) (IsBacked asset)
  unfolding on_resolved
  on_resolved-IsBacked authority market_id ns d = record {
    run = λ b h.
        either-IsBacked (contains b.settled market_id) (ok tt, b) _ (λ a r. h)
          ((settle-IsBacked market_id ns d (distribution b.market ns d) (authority market_id)).run b
            h);
  }

  on_body-IsBacked :
      (authority : Authority) (market_id : String) (body : Body)
      → Triple (IsBacked asset) (on_body authority market_id body) (IsBacked asset)
  on_body-IsBacked authority market_id (order_accepted id k o s q p) =
      on_order_event-IsBacked asset k id (order_accepted id k o s q p)
  on_body-IsBacked authority market_id (fill_made id k o s q p l fee) =
      on_order_event-IsBacked asset k id (fill_made id k o s q p l fee)
  on_body-IsBacked authority market_id (order_cancelled id k remaining) =
      on_order_event-IsBacked asset k id (order_cancelled id k remaining)
  on_body-IsBacked authority market_id (market_determined ns d) =
      on_determined-IsBacked authority market_id ns d
  on_body-IsBacked authority market_id (market_resolved ns d w) =
      on_resolved-IsBacked authority market_id ns d
  on_body-IsBacked authority market_id (other kind) = record { run = λ b h a r. h }

  pub on_event-IsBacked :
      (authority : Authority) (ev : Event)
      → Triple (IsBacked asset) (on_event authority ev) (IsBacked asset)
  unfolding on_event
  on_event-IsBacked authority ev = on_body-IsBacked authority ev.market_id ev.body
