-- ===== src/Bot/Sending.antt =====
-- safe_bot.py: submitting an intent, and asking about one whose answer was lost.
use financial_engineering_sk.Prelude.{
  ◌==◌, string_eq, if◌then◌else◌, Bool, true, false, Option, none, some, String, Result, Error, ok,
  err, Exec, pure, raise, modify, ◌>>=◌, ◌>>◌, key_error, value_error, insufficient_available,
  unknown_fee_asset, ambiguous_response, rejected,
}
use financial_engineering_sk.Prelude.Dict.{lookup, insert}
use financial_engineering_sk.Prelude.Int.{ℤ, ◌-ℤ◌, ltb_ℤ}
use financial_engineering_sk.Venue.Messages.{OrderRequest, sell}
use financial_engineering_sk.Venue.State.{FakeVenue, OrderView}
use financial_engineering_sk.Venue.Placing.{place_order}
use financial_engineering_sk.Venue.Trading.{get_order_by_client_key}
use financial_engineering_sk.Bot.State.{
  BotState, pending, unknown, was_rejected, refused, OrderRecord, new_record, Alert,
  ambiguous_submission, rejected_submission, Book, Focus, alert,
}
use financial_engineering_sk.Bot.Balances.{edit}
use financial_engineering_sk.Bot.Holds.{hold, unwind}

-- What `submit` and `reconcile_unknown` answer.
pub data Sent : Type 0 where
  sent unknown_outcome not_accepted found : Sent

-- The bot's book and the venue that it talks to.
pub record Desk : Type 0 where
  pub book : Book
  pub venue : FakeVenue

-- A method of the order under this key: its record is the one that `orders` holds.
abbrev pub focus_on : {A : Type 0} → String → OrderRecord → Exec Focus A → Exec Book A
focus_on client_key rec m b =
    let (r, f) = m (record { book = b; order = rec }) in
    (r, record f.book { orders = insert client_key f.order f.book.orders })

abbrev pub on_book : {A : Type 0} → Exec Book A → Exec Desk A
on_book m d = let (r, b) = m d.book in (r, record d { book = b })

abbrev pub set_state : BotState → Exec Focus Unit
set_state s = edit (λ (r : OrderRecord). record r { state = s })

abbrev pub say : Alert → Exec Focus Unit
say a = modify (λ (f : Focus). record f { book = alert a f.book })

unfoldable pub bind_order : String → Exec Focus Unit
bind_order order_id f = (
  ok tt,
  record f {
    order = record f.order { order_id = some order_id };
    book = record f.book { by_order_id = insert order_id f.order.client_key f.book.by_order_id };
  },
)

abbrev pub request_of : Book → OrderRecord → OrderRequest
request_of b rec = record {
  client_key = rec.client_key;
  market_id = b.market.market_id;
  outcome = rec.outcome;
  side = rec.side;
  qty = rec.qty;
  price_micro = rec.price_micro;
}

-- What the answer of the venue does to the order.
unfoldable pub take_answer : Result OrderView → Exec Focus Sent
unfolding bind_order
take_answer (ok view) f = (do bind_order view.order_id; pure sent) f
take_answer (err ambiguous_response) f =
    (do set_state unknown; say (ambiguous_submission f.order.client_key); pure unknown_outcome) f
take_answer (err (rejected reason)) f =
    (do
      set_state was_rejected
      unwind
      say (rejected_submission f.order.client_key reason)
      pure not_accepted)
      f
take_answer (err e) f = (err e, f)

module _ (sign_request : OrderRequest → String) where
  unfoldable pub send : String → OrderRecord → Exec Desk Sent
  unfolding take_answer
  send client_key rec d =
      let req = request_of d.book rec in
      let (answer, v) = place_order sign_request req (sign_request req) d.venue in
      on_book (focus_on client_key rec (take_answer answer)) (record d { venue = v })

  -- What a hold that raised leaves behind: the row stays, and two of the errors mark it.
  unfoldable pub refuse_hold : Error → Exec Focus Unit
  refuse_hold insufficient_available = do set_state refused; raise insufficient_available
  refuse_hold unknown_fee_asset = do set_state refused; raise unknown_fee_asset
  refuse_hold e = raise e

  abbrev pub hold_or_refuse : Exec Focus Unit
  hold_or_refuse f =
      let (r, f') = hold f in elim r [ ok _ ↦ (ok tt, f') | err e ↦ refuse_hold e f' ]

  abbrev pub uncovered : Book → String → ℤ → Result Bool
  uncovered b outcome qty = elim (lookup outcome b.positions) [
    | none ↦ err key_error
    | some held ↦ elim (lookup outcome b.locked) [
      | none ↦ err key_error
      | some taken ↦ ok (ltb_ℤ (held -ℤ taken) qty)
    ]
  ]

  -- The order on file under this key.
  abbrev pub order_of : String → Exec Desk OrderRecord
  order_of client_key d =
      (elim (lookup client_key d.book.orders) [ none ↦ err key_error | some rec ↦ ok rec ], d)

  abbrev pub commit_and_send : OrderRecord → Exec Desk Sent
  commit_and_send rec = do
    on_book (focus_on rec.client_key rec hold_or_refuse)
    held ← order_of rec.client_key
    send rec.client_key held

  abbrev pub refused_at_once : Book → String → String → String → ℤ → Result Bool
  refused_at_once b client_key outcome side qty = elim (lookup client_key b.orders) [
    | some _ ↦ ok true
    | none ↦ if side == sell then uncovered b outcome qty else ok false
  ]

  unfoldable pub submit : String → String → String → ℤ → ℤ → Exec Desk Sent
  unfolding refuse_hold send
  submit client_key outcome side qty price d =
      elim (refused_at_once d.book client_key outcome side qty) [
        | err e ↦ (err e, d)
        | ok true ↦ (err value_error, d)
        | ok false ↦ commit_and_send (new_record client_key outcome side qty price) d
      ]

  abbrev pub is_unknown : BotState → Bool
  is_unknown unknown = true
  is_unknown _ = false

  abbrev pub as_pending : OrderRecord → OrderRecord
  as_pending rec = record rec { state = pending }

  -- By what the venue says of the identity that was sent.
  abbrev pub recover_with : String → OrderRecord → Result (Option OrderView) → Exec Desk Sent
  recover_with client_key rec (err e) d = (err e, d)
  recover_with client_key rec (ok (some view)) d =
      (do
        on_book (focus_on client_key rec (do bind_order view.order_id; set_state pending))
        pure found)
        d
  recover_with client_key rec (ok none) d =
      (do on_book (focus_on client_key rec (set_state pending)); send client_key (as_pending rec)) d

  unfoldable pub reconcile_unknown : String → Exec Desk Sent
  unfolding send bind_order
  reconcile_unknown client_key d = elim (lookup client_key d.book.orders) [
    | none ↦ (err key_error, d)
    | some rec ↦
        if is_unknown rec.state
        then recover_with client_key rec (get_order_by_client_key client_key d.venue) d
        else (err value_error, d)
  ]
