-- ===== src/Bot/Lost.antt =====
-- safe_bot.py: a submission whose answer was lost is recovered by asking for its identity.
use financial_engineering_sk.Prelude.{
  ◌≡◌, ◌⊎◌, inl, inr, refl, ap, none, some, String, string_eq, Result, ok, err, err≢ok,
  ambiguous_response, rejected, continue, pure, ◌>>◌,
}
use financial_engineering_sk.Prelude.Dict.{lookup, insert, lookup-insert_self}
use financial_engineering_sk.Venue.Messages.{OrderRequest}
use financial_engineering_sk.Venue.State.{FakeVenue, OrderView, view, emit}
use financial_engineering_sk.Venue.Placing.{new_order, next_order_id, accept, place_order}
use financial_engineering_sk.Venue.Trading.{get_order_by_client_key}
use financial_engineering_sk.Venue.Lost.{
  without_fault, Lost, accepted, unseen, LostAt, place_order-LostAt, unseen_is_accepted,
  accepted_is_found, unseen_is_not_found,
}
use financial_engineering_sk.Bot.State.{
  OrderRecord, unknown, was_rejected, ambiguous_submission, rejected_submission, Focus, alert,
}
use financial_engineering_sk.Bot.Holds.{unwind}
use financial_engineering_sk.Bot.Sending.{
  Sent, sent, unknown_outcome, not_accepted, found, Desk, request_of, take_answer, send,
  reconcile_unknown, recover_with, say, bind_order,
}

sent≢unknown : {A : Type 0} → ◌≡◌ {A = Result Sent} (ok sent) (ok unknown_outcome) → A
sent≢unknown h = cc

refused≢unknown : {A : Type 0} → ◌≡◌ {A = Result Sent} (ok not_accepted) (ok unknown_outcome) → A
refused≢unknown h = cc

-- An outcome is unknown only after an ambiguous answer.
unknown_after :
    (answer : Result OrderView) (f : Focus)
    → (take_answer answer f).0 ≡ ok unknown_outcome
    → answer ≡ err ambiguous_response
unfolding take_answer
unknown_after (ok v) f h = sent≢unknown h
unknown_after (err ambiguous_response) f h = refl
unknown_after (err (rejected reason)) f h =
    go (unwind (record f { order = record f.order { state = was_rejected } })) h
  where
    go :
        (r : Result (Unit {0}) × Focus)
        → (continue r.0
            (λ _. say (rejected_submission f.order.client_key reason) >> pure not_accepted)
            r.1).0
          ≡ ok unknown_outcome
        → ◌≡◌ {A = Result OrderView} (err (rejected reason)) (err ambiguous_response)
    go (ok _, f') q = refused≢unknown q
    go (err e, f') q = absurd (err≢ok q)
unknown_after (err e) f h = absurd (err≢ok h)

module _ (sign_request : OrderRequest → String) (rec : OrderRecord) (d : Desk) where
  abbrev req : OrderRequest
  req = request_of d.book rec

  abbrev asked : Result OrderView × FakeVenue
  asked = place_order sign_request req (sign_request req) d.venue

  abbrev unknown_record : OrderRecord
  unknown_record = record rec { state = unknown }

  -- What a submission with a lost answer leaves: the row is UNKNOWN, and all it held is held.
  abbrev lost_desk : FakeVenue → Desk
  lost_desk v = record {
    book = record (alert (ambiguous_submission rec.client_key) d.book) {
      orders = insert rec.client_key unknown_record d.book.orders;
    };
    venue = v;
  }

  send_lost :
      (v : FakeVenue)
      → asked ≡ (err ambiguous_response, v)
      → send sign_request rec.client_key rec d ≡ (ok unknown_outcome, lost_desk v)
  unfolding send
  send_lost v h = rw h refl

  asked_lost :
      (send sign_request rec.client_key rec d).0 ≡ ok unknown_outcome
      → asked ≡ (err ambiguous_response, asked.1)
  unfolding send
  asked_lost h =
      ap (λ (a : Result OrderView). (a, asked.1))
        (unknown_after asked.0 (record { book = d.book; order = rec }) h)

  -- The order stands at the venue under the key, and the bot has bound it.
  pub record Recovered (r : Result Sent × Desk) : Type 0 where
    pub answer : (r.0 ≡ ok found) ⊎ (r.0 ≡ ok sent)
    pub id : String
    pub keyed : lookup rec.client_key r.1.venue.by_client_key ≡ some id
    pub stands : lookup id r.1.venue.orders ≡ some (new_order id req)
    pub bound : lookup id r.1.book.by_order_id ≡ some rec.client_key

  abbrev cleared : FakeVenue
  cleared = without_fault req d.venue

  -- The reads of the book and of the venue that recovery makes.
  row_is_unknown :
      (v : FakeVenue) → lookup rec.client_key (lost_desk v).book.orders ≡ some unknown_record
  row_is_unknown v = lookup-insert_self rec.client_key unknown_record d.book.orders

  accept-keyed :
      (v : FakeVenue) → lookup rec.client_key (accept req v).by_client_key ≡ some (next_order_id v)
  unfolding accept emit
  accept-keyed v = lookup-insert_self rec.client_key (next_order_id v) v.by_client_key

  accept-stands :
      (v : FakeVenue)
      → lookup (next_order_id v) (accept req v).orders ≡ some (new_order (next_order_id v) req)
  unfolding accept emit
  accept-stands v = lookup-insert_self (next_order_id v) (new_order (next_order_id v) req) v.orders

  reconcile_asks :
      (v : FakeVenue)
      → reconcile_unknown sign_request rec.client_key (lost_desk v)
        ≡ recover_with sign_request rec.client_key unknown_record
            (get_order_by_client_key rec.client_key v)
            (lost_desk v)
  unfolding reconcile_unknown
  reconcile_asks v = rw (reconcile_unknown, row_is_unknown v) refl

  found-Recovered :
      (v : FakeVenue)
      → Recovered (
          recover_with sign_request rec.client_key unknown_record
            (ok (some (view (new_order (next_order_id v) req))))
            (lost_desk (accept req v)))
  unfolding bind_order
  found-Recovered v = record {
    answer = inl refl;
    id = next_order_id v;
    keyed = accept-keyed v;
    stands = accept-stands v;
    bound = lookup-insert_self (next_order_id v) rec.client_key d.book.by_order_id;
  }

  resent-Recovered :
      LostAt req d.venue cleared
      → Recovered
          (recover_with sign_request rec.client_key unknown_record (ok none) (lost_desk cleared))
  unfolding send take_answer bind_order
  resent-Recovered at =
      let resent = without_fault req cleared in
      rw (unseen_is_accepted req sign_request d.venue cleared at refl) (record {
        answer = inr refl;
        id = next_order_id resent;
        keyed = accept-keyed resent;
        stands = accept-stands resent;
        bound = lookup-insert_self (next_order_id resent) rec.client_key d.book.by_order_id;
      })

  either-Recovered :
      (v : FakeVenue)
      → LostAt req d.venue v
      → Lost req d.venue v
      → Recovered (reconcile_unknown sign_request rec.client_key (lost_desk v))
  either-Recovered _ at accepted =
      rw (reconcile_asks (accept req cleared), accepted_is_found req cleared)
        (found-Recovered cleared)
  either-Recovered _ at unseen =
      rw (reconcile_asks cleared, unseen_is_not_found req d.venue at.new) (resent-Recovered at)

  -- After a submission whose answer was lost, whether the venue has seen the order or not, one question
  -- about its identity settles it: the bot answers that the order was found or sent, and the venue has
  -- the order of this very request under the request's key, with the bot's key bound to its identity.
  pub lost_order-Recovered :
      (send sign_request rec.client_key rec d).0 ≡ ok unknown_outcome
      → Recovered
          (reconcile_unknown sign_request rec.client_key (send sign_request rec.client_key rec d).1)
  lost_order-Recovered h =
      let lost = asked_lost h in
      let at = place_order-LostAt req sign_request d.venue asked.1 lost in
      rw (send_lost asked.1 lost) (either-Recovered asked.1 at at.lost)
