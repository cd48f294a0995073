-- ===== src/Bot/Account/Submitted.antt =====
-- safe_bot.py: submitting and asking, and what the orders hold of what is reserved.
use financial_engineering_sk.Prelude.{
  ◌≡◌, refl, string_eq, if◌then◌else◌, true, false, Bool, String, Option, none, some, Result, Exec,
  ok, err, err≢ok, continue, ◌>>=◌, ◌>>◌, key_error, value_error,
}
use financial_engineering_sk.Prelude.Dict.{lookup, lookup-insert_self}
use financial_engineering_sk.Prelude.Int.{ℤ}
use financial_engineering_sk.Venue.Messages.{OrderRequest}
use financial_engineering_sk.Venue.State.{OrderView}
use financial_engineering_sk.Venue.Placing.{place_order}
use financial_engineering_sk.Venue.Trading.{get_order_by_client_key}
use financial_engineering_sk.Bot.State.{OrderRecord, new_record, pending}
use financial_engineering_sk.Bot.Sending.{
  Sent, Desk, focus_on, set_state, bind_order, take_answer, send, order_of, submit, recover_with,
  reconcile_unknown, refused_at_once, is_unknown, hold_or_refuse, commit_and_send, as_pending,
  on_book, request_of,
}
use financial_engineering_sk.Bot.Triples.{Triple, bind-Triple}
use financial_engineering_sk.Bot.Account.Booked.{Kept, set_state-Kept, bind_order-Kept}
use financial_engineering_sk.Bot.Account.Fresh.{
  fresh-IsBacked, hold_or_refuse-Kept, take_answer-Kept,
}
use financial_engineering_sk.Bot.Account.Backing.{IsBacked, focus_on-IsBacked}

module _ (asset : String) where
  module _ (sign : OrderRequest → String) where
    abbrev Backs : {A : Type 0} → Exec Desk A → Desk → Type 0
    Backs {A} method d =
        IsBacked asset d.book → (a : A) → (method d).0 ≡ ok a → IsBacked asset (method d).1.book

    send-IsBacked :
        (k : String) (rec : OrderRecord) (d : Desk)
        → lookup k d.book.orders ≡ some rec
        → Backs (send sign k rec) d
    unfolding send
    send-IsBacked k rec d on_file =
        focus_on-IsBacked asset d.book.market k rec
          (take_answer
            (place_order sign (request_of d.book rec) (sign (request_of d.book rec)) d.venue).0)
          d.book refl on_file
          (λ others. take_answer-Kept asset d.book.market d.book.orders others _)

    sent_on-IsBacked :
        (k : String) (d : Desk) (o : Option OrderRecord)
        → lookup k d.book.orders ≡ o
        → IsBacked asset d.book
        → (a : Sent)
        → (continue {A = OrderRecord}
            (elim o [ none ↦ err key_error | some rec ↦ ok rec ])
            (send sign k)
            d).0
          ≡ ok a
        → IsBacked asset
            (continue {A = OrderRecord}
              (elim o [ none ↦ err key_error | some rec ↦ ok rec ])
              (send sign k)
              d).1.book
    sent_on-IsBacked k d none q backed a h = absurd (err≢ok h)
    sent_on-IsBacked k d (some rec) q backed a h = send-IsBacked k rec d q backed a h

    abbrev Covered : Desk → Type 0
    Covered d = IsBacked asset d.book

    abbrev FreshAnd : String → Desk → Type 0
    FreshAnd k d = (lookup k d.book.orders ≡ none) × IsBacked asset d.book

    commit_and_send-Covered :
        (k o s : String) (q p : ℤ)
        → Triple (FreshAnd k) (commit_and_send sign (new_record k o s q p)) Covered
    commit_and_send-Covered k o s q p =
        bind-Triple (FreshAnd k) Covered Covered
          (on_book (focus_on k (new_record k o s q p) (hold_or_refuse sign)))
          (λ _. order_of sign k >>= send sign k)
          (record {
            run = λ d (fresh, backed).
                fresh-IsBacked asset k o s q p (hold_or_refuse sign) d.book fresh
                  (λ others. hold_or_refuse-Kept asset d.book.market d.book.orders others sign)
                  backed;
          })
          (λ a. record { run = λ d. sent_on-IsBacked k d (lookup k d.book.orders) refl })

    abbrev at_once : Result Bool → Option OrderRecord → Result Bool
    at_once otherwise o = elim o [ some _ ↦ ok true | none ↦ otherwise ]

    at_once_lem :
        (otherwise : Result Bool) (o : Option OrderRecord)
        → at_once otherwise o ≡ ok false
        → o ≡ none
    at_once_lem otherwise none h = refl
    at_once_lem otherwise (some rec) h = cc

    abbrev submitted : OrderRecord → Desk → Result Bool → Result Sent × Desk
    submitted rec d r = elim r [
      | err e ↦ (err e, d)
      | ok true ↦ (err value_error, d)
      | ok false ↦ commit_and_send sign rec d
    ]

    submitted-Covered :
        (k o s : String) (q p : ℤ) (d : Desk) (r : Result Bool)
        → (r ≡ ok false → FreshAnd k d)
        → (a : Sent) → (submitted (new_record k o s q p) d r).0 ≡ ok a
        → Covered (submitted (new_record k o s q p) d r).1
    submitted-Covered k o s q p d (err e) fresh = λ a h. absurd (err≢ok h)
    submitted-Covered k o s q p d (ok true) fresh = λ a h. absurd (err≢ok h)
    submitted-Covered k o s q p d (ok false) fresh =
        (commit_and_send-Covered k o s q p).run d (fresh refl)

    pub submit-Covered : (k o s : String) (q p : ℤ) → Triple Covered (submit sign k o s q p) Covered
    unfolding submit
    submit-Covered k o s q p = record {
      run = λ d backed.
          submitted-Covered k o s q p d (refused_at_once sign d.book k o s q)
            (λ e. (at_once_lem _ (lookup k d.book.orders) e, backed));
    }

    recover-Covered :
        (k : String) (rec : OrderRecord) (d : Desk) (answer : Result (Option OrderView))
        → lookup k d.book.orders ≡ some rec
        → Backs (recover_with sign k rec answer) d
    unfolding bind_order
    recover-Covered k rec d (err e) on_file backed a h = absurd (err≢ok h)
    recover-Covered k rec d (ok (some view)) on_file backed a h =
        focus_on-IsBacked asset d.book.market k rec (do bind_order view.order_id; set_state pending)
          d.book refl on_file
          (λ others.
            bind-Triple _ (Kept asset d.book.market d.book.orders others) _ _ _
              (bind_order-Kept asset d.book.market d.book.orders others view.order_id)
              (λ a. set_state-Kept asset d.book.market d.book.orders others pending))
          backed tt refl
    recover-Covered k rec d (ok none) on_file backed a h =
        send-IsBacked k (as_pending sign rec) _
          (lookup-insert_self k (as_pending sign rec) d.book.orders)
          (focus_on-IsBacked asset d.book.market k rec (set_state pending) d.book refl on_file
            (λ others. set_state-Kept asset d.book.market d.book.orders others pending) backed tt
            refl)
          a h

    abbrev asked : String → Desk → Option OrderRecord → Result Sent × Desk
    asked k d o = elim o [
      | none ↦ (err key_error, d)
      | some rec ↦
          if is_unknown sign rec.state
          then recover_with sign k rec (get_order_by_client_key k d.venue) d
          else (err value_error, d)
    ]

    asked-Covered :
        (k : String) (d : Desk) (o : Option OrderRecord)
        → lookup k d.book.orders ≡ o
        → Covered d
        → (a : Sent) → (asked k d o).0 ≡ ok a
        → Covered (asked k d o).1
    asked-Covered k d none on_file backed = λ a h. absurd (err≢ok h)
    asked-Covered k d (some rec) on_file backed =
        by_state (is_unknown sign rec.state) _ (recover-Covered k rec d _ on_file backed)
      where
        by_state :
            (test : Bool) (x : Result Sent × Desk)
            → ((a : Sent) → x.0 ≡ ok a → Covered x.1)
            → (a : Sent) → (if test then x else (err value_error, d)).0 ≡ ok a
            → Covered (if test then x else (err value_error, d)).1
        by_state true x p = p
        by_state false x p = λ a h. absurd (err≢ok h)

    pub reconcile_unknown-Covered : (k : String) → Triple Covered (reconcile_unknown sign k) Covered
    unfolding reconcile_unknown
    reconcile_unknown-Covered k = record {
      run = λ d. asked-Covered k d (lookup k d.book.orders) refl;
    }
