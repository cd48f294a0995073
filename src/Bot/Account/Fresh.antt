-- ===== src/Bot/Account/Fresh.antt =====
-- safe_bot.py: a new order and the answer of the venue, in the account of what is reserved.
use financial_engineering_sk.Prelude.{
  ◌≡◌, ◌≢◌, refl, sym, ap, ◌∙◌, string_eq, ◌==◌, true, false, Bool, String, none, [], ◌∷◌, Result,
  Error, Exec, ok, err, err≢ok, insufficient_available, unknown_fee_asset, ambiguous_response,
  rejected, Bool-cases, inl, inr,
}
use financial_engineering_sk.Prelude.Dict.{none≢some, Dict, lookup, insert}
use financial_engineering_sk.Prelude.Int.{ℤ, pos, ◌+ℤ◌, +ℤ-zero, +ℤ_assoc, int_laws}
use financial_engineering_sk.Venue.Messages.{Market, OrderRequest}
use financial_engineering_sk.Venue.State.{OrderView}
use financial_engineering_sk.Bot.State.{
  OrderRecord, new_record, Book, Focus, unknown, was_rejected, ambiguous_submission,
  rejected_submission,
}
use financial_engineering_sk.Bot.Holds.{hold}
use financial_engineering_sk.Bot.Sending.{
  sent, unknown_outcome, not_accepted, focus_on, take_answer, refuse_hold, hold_or_refuse,
}
use financial_engineering_sk.Bot.Triples.{Triple, bind-Triple, lift-Triple}
use financial_engineering_sk.Bot.Account.{part, own, Balanced}
use financial_engineering_sk.Bot.Account.Letting.{Unheld}
use financial_engineering_sk.Bot.Account.Unwound.{hold-Triple, unwind-Balanced}
use financial_engineering_sk.Bot.Account.Booked.{Kept, set_state-Kept, bind_order-Kept, say-Triple}
use financial_engineering_sk.Bot.Account.Backing.{held_by, IsBacked}

part_zero : (b : Bool) → part b (pos 0) ≡ pos 0
part_zero true = refl
part_zero false = refl

own-new :
    (asset : String) (m : Market) (k o s : String) (q p : ℤ)
    → own asset m (new_record k o s q p) ≡ pos 0
unfolding own
own-new asset m k o s q p =
    rw (part_zero (m.collateral_asset == asset), part_zero (m.fee_asset == asset)) (+ℤ-zero (pos 0))

zero_last : (a : ℤ) → a +ℤ pos 0 ≡ pos 0 +ℤ a
zero_last a = omega int_laws

module _ (asset : String) where
  held_by-fresh :
      (m : Market) (k : String) (r : OrderRecord) (orders : Dict String OrderRecord)
      → lookup k orders ≡ none
      → held_by asset m (insert k r orders) ≡ held_by asset m orders +ℤ own asset m r
  unfolding held_by
  held_by-fresh m k r [] h = zero_last (own asset m r)
  held_by-fresh m k r ((j, s) ∷ orders) h = elim (Bool-cases (j == k)) [
    | inl same ↦ absurd (none≢some (sym (rw same at h)))
    | inr other ↦
        rw (other, held_by-fresh m k r orders (rw other at h))
          (sym (+ℤ_assoc (own asset m s) (held_by asset m orders) (own asset m r)))
  ]

  -- A new order, under a key that is not on file.
  pub fresh-IsBacked :
      {A : Type 0} (k o s : String) (q p : ℤ) (method : Exec Focus A) (b : Book)
      → lookup k b.orders ≡ none
      → ((others : ℤ)
          → Triple
              (Unheld asset b.market b.orders others)
              method
              (Balanced asset b.market b.orders others))
      → IsBacked asset b
      → (a : A) → (focus_on k (new_record k o s q p) method b).0 ≡ ok a
      → IsBacked asset (focus_on k (new_record k o s q p) method b).1
  fresh-IsBacked k o s q p method b fresh stays backed a h =
      let rec = new_record k o s q p in
      let start : Focus = record { book = b; order = rec } in
      let others = held_by asset b.market b.orders in
      let level =
        backed
        ∙ (sym (+ℤ-zero others) ∙ ap (λ n. others +ℤ n) (sym (own-new asset b.market k o s q p))) in
      let (e', o', l') = (stays others).run start (refl, refl, level, refl, refl) a h in
      rw (e', o', held_by-fresh b.market k (method start).1.order b.orders fresh) l'

  module _ (m : Market) (orders : Dict String OrderRecord) (others : ℤ) where
    abbrev hold_outcome :
        (OrderRequest → String) → Focus → Result (Unit {0}) → Result (Unit {0}) × Focus
    hold_outcome sign f r = elim r [ ok _ ↦ (ok tt, f) | err e ↦ refuse_hold sign e f ]

    raises :
        (sign : OrderRequest → String) (e : Error) (f : Focus) (a : Unit {0})
        → (refuse_hold sign e f).0 ≢ ok a
    unfolding refuse_hold
    raises sign insufficient_available f a = err≢ok
    raises sign unknown_fee_asset f a = err≢ok
    raises sign e f a = err≢ok

    refused-Kept :
        (sign : OrderRequest → String) (f : Focus) (r : Result (Unit {0}))
        → ((a : Unit {0}) → r ≡ ok a → Kept asset m orders others f)
        → (a : Unit {0}) → (hold_outcome sign f r).0 ≡ ok a
        → Kept asset m orders others (hold_outcome sign f r).1
    refused-Kept sign f (ok _) kept a h = kept tt refl
    refused-Kept sign f (err e) kept a h = absurd (raises sign e f a h)

    pub hold_or_refuse-Kept :
        (sign : OrderRequest → String)
        → Triple (Unheld asset m orders others) (hold_or_refuse sign) (Kept asset m orders others)
    hold_or_refuse-Kept sign = record {
      run = λ f p.
          refused-Kept sign (hold f).1 (hold f).0 ((hold-Triple asset m orders others).run f p);
    }

    pub take_answer-Kept :
        (answer : Result OrderView)
        → Triple (Kept asset m orders others) (take_answer answer) (Kept asset m orders others)
    unfolding take_answer
    take_answer-Kept (ok view) = record {
      run = λ f.
          (bind-Triple _ (Kept asset m orders others) _ _ _
              (bind_order-Kept asset m orders others view.order_id)
              (λ a. lift-Triple _ (ok sent))).run
            f;
    }
    take_answer-Kept (err ambiguous_response) = record {
      run = λ f.
          (bind-Triple _ (Kept asset m orders others) _ _ _
              (set_state-Kept asset m orders others unknown)
              (λ a.
                bind-Triple _ (Kept asset m orders others) _ _ _
                  (say-Triple _ (ambiguous_submission f.order.client_key))
                  (λ a. lift-Triple _ (ok unknown_outcome)))).run
            f;
    }
    take_answer-Kept (err (rejected reason)) = record {
      run = λ f.
          (bind-Triple _ (Kept asset m orders others) _ _ _
              (set_state-Kept asset m orders others was_rejected)
              (λ a.
                bind-Triple _ (Kept asset m orders others) _ _ _
                  (unwind-Balanced asset m orders others)
                  (λ a.
                    bind-Triple _ (Kept asset m orders others) _ _ _
                      (say-Triple _ (rejected_submission f.order.client_key reason))
                      (λ a. lift-Triple _ (ok not_accepted))))).run
            f;
    }
    take_answer-Kept (err e) = record { run = λ f p a h. absurd (err≢ok h) }
