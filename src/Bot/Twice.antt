-- ===== src/Bot/Twice.antt =====
-- unsafe_bot.py: what the counter-example does twice.
use financial_engineering_sk.Prelude.{
  ◌≡◌, ◌≢◌, refl, sym, ◌∙◌, ℕ, ◌+◌, false, none, some, String, ◌==◌, string_eq, ok, err,
  ambiguous_response, arith, eq_self, ne_test, ne_sound, ◌>>◌,
}
use text.Mathlib.TextLemmas.{append_cancel_left, append-nil}
use financial_engineering_sk.Prelude.Dict.{
  lookup, insert, lookup-insert, lookup-insert_self, lookup-remove,
}
use financial_engineering_sk.Prelude.Decimal.{padded, padded_injective}
use financial_engineering_sk.Prelude.Int.{ℤ, pos, ◌+ℤ◌}
use financial_engineering_sk.Prelude.Division.{◌*ℤ◌}
use financial_engineering_sk.Venue.Messages.{OrderRequest, request_eq, buy}
use financial_engineering_sk.Venue.State.{FakeVenue, view, emit}
use financial_engineering_sk.Venue.Placing.{
  validate, new_order, next_order_id, accept, answer_valid, place_order,
}
use financial_engineering_sk.Venue.Lost.{without_fault, answer_valid-view}
use financial_engineering_sk.Bot.Unsafe.{
  UnsafeBot, UnsafeDesk, retry_key, unsafe_request, unsafe_submit, pay, nth, unsafe_resolved,
}

-- A resolution with a winning index credits the winner's position each time that it is delivered.
pub redelivery_is_credited_again :
    (b : UnsafeBot) (index : ℕ) (outcome : String) (held balance : ℤ)
    → nth b.market.outcomes index ≡ some outcome
    → lookup outcome b.positions ≡ some held
    → lookup b.market.collateral_asset b.available ≡ some balance
    → let credit = held *ℤ pos b.market.payout_per_share_micro in
      lookup b.market.collateral_asset
        ((unsafe_resolved (some index) >> unsafe_resolved (some index)) b).1.available
      ≡ some (balance +ℤ credit +ℤ credit)
unfolding unsafe_resolved pay
redelivery_is_credited_again b index outcome held balance p q r =
    let credit = held *ℤ pos b.market.payout_per_share_micro in
    let coll = b.market.collateral_asset in
    rw (p, q, r, p, q, lookup-insert_self coll (balance +ℤ credit) b.available)
      (lookup-insert_self coll (balance +ℤ credit +ℤ credit) _)

fresh_key : (key : String) → retry_key key ≢ key
fresh_key key h =
    ne_sound "-retry1" "" refl (append_cancel_left key "-retry1" "" (h ∙ sym (append-nil key)))

module _ (sign_request : OrderRequest → String) (d : UnsafeDesk) (client_key outcome : String)
    (qty price : ℤ) where
  abbrev first_request : OrderRequest
  first_request = unsafe_request d.bot.market client_key outcome buy qty price

  abbrev second_request : OrderRequest
  second_request = unsafe_request d.bot.market (retry_key client_key) outcome buy qty price

  abbrev after_first : FakeVenue
  after_first = accept first_request (without_fault first_request d.venue)

  -- A bid that was valid is valid under the other key: no check reads what the first one changed.
  second_is_valid :
      validate first_request d.venue ≡ ok tt → validate second_request after_first ≡ ok tt
  unfolding validate accept emit
  second_is_valid h = h

  abbrev after_second : FakeVenue
  after_second = accept second_request (without_fault second_request after_first)

  -- The answer to the first request is lost, and the fresh key is new to the venue.
  pub record IsLost : Type 0 where
    pub new : lookup client_key d.venue.by_client_key ≡ none
    pub fresh : lookup (retry_key client_key) d.venue.by_client_key ≡ none
    pub valid : validate first_request d.venue ≡ ok tt
    pub lost : lookup client_key d.venue.faults ≡ some "ambiguous_after_accept"
    pub answered : lookup (retry_key client_key) d.venue.faults ≡ none

  different_key : (client_key == retry_key client_key) ≡ false
  different_key = ne_test client_key (retry_key client_key) (λ q. fresh_key client_key (sym q))

  different_id : next_order_id d.venue ≢ next_order_id after_first
  unfolding accept emit
  different_id h =
      let same : d.venue.next_order ≡ d.venue.next_order + 1 =
        padded_injective d.venue.next_order (d.venue.next_order + 1) (
          append_cancel_left "ord-" (padded d.venue.next_order) (padded (d.venue.next_order + 1))
            h) in
      absurd (omega arith)

  first_placed :
      IsLost
      → place_order sign_request first_request (sign_request first_request) d.venue
        ≡ (err ambiguous_response, after_first)
  unfolding place_order answer_valid
  first_placed h = rw (eq_self (sign_request first_request), h.new, h.valid, h.lost) refl

  second_is_new : IsLost → lookup (retry_key client_key) after_first.by_client_key ≡ none
  unfolding accept emit
  second_is_new h =
      lookup-insert client_key (retry_key client_key) (next_order_id d.venue) d.venue.by_client_key
      ∙ rw different_key h.fresh

  second_has_no_fault : IsLost → lookup (retry_key client_key) after_first.faults ≡ none
  unfolding accept emit
  second_has_no_fault h =
      lookup-remove client_key (retry_key client_key) d.venue.faults ∙ rw different_key h.answered

  second_placed :
      IsLost
      → place_order sign_request second_request (sign_request second_request) after_first
        ≡ (ok (view (new_order (next_order_id after_first) second_request)), after_second)
  unfolding place_order
  second_placed h =
      rw
        (
          eq_self (sign_request second_request),
          second_is_new h,
          second_is_valid h.valid,
          second_has_no_fault h,
        )
        (answer_valid-view second_request (without_fault second_request after_first))

  unsafe_submit-venue :
      IsLost
      → (unsafe_submit sign_request client_key outcome buy qty price d).1.venue ≡ after_second
  unfolding unsafe_submit
  unsafe_submit-venue h = rw (first_placed h, second_placed h) refl

  -- Both orders stand, under different keys and identities, with the same terms.
  pub record RestsTwice (v : FakeVenue) : Type 0 where
    pub first_id : String
    pub second_id : String
    pub differ : first_id ≢ second_id
    pub first_key : lookup client_key v.by_client_key ≡ some first_id
    pub second_key : lookup (retry_key client_key) v.by_client_key ≡ some second_id
    pub first_stands : lookup first_id v.orders ≡ some (new_order first_id first_request)
    pub second_stands : lookup second_id v.orders ≡ some (new_order second_id second_request)

  after_second-RestsTwice : RestsTwice after_second
  unfolding accept emit
  after_second-RestsTwice = record {
    first_id = next_order_id d.venue;
    second_id = next_order_id after_first;
    differ = different_id;
    first_key =
        lookup-insert (retry_key client_key) client_key (next_order_id after_first)
          (insert client_key (next_order_id d.venue) d.venue.by_client_key)
        ∙ rw (ne_test (retry_key client_key) client_key (fresh_key client_key))
            (lookup-insert_self client_key (next_order_id d.venue) d.venue.by_client_key);
    second_key =
        lookup-insert_self (retry_key client_key) (next_order_id after_first)
          (insert client_key (next_order_id d.venue) d.venue.by_client_key);
    first_stands =
        lookup-insert (next_order_id after_first) (next_order_id d.venue) _ _
        ∙ rw
            (ne_test (next_order_id after_first) (next_order_id d.venue)
              (λ q. different_id (sym q)))
            (lookup-insert_self (next_order_id d.venue) _ d.venue.orders);
    second_stands = lookup-insert_self (next_order_id after_first) _ _;
  }

  -- A valid bid that the venue accepts and whose answer is lost: the counter-example retries under a
  -- fresh key, and then two orders with the same terms stand at the venue.
  pub lost_bid-RestsTwice :
      IsLost → RestsTwice (unsafe_submit sign_request client_key outcome buy qty price d).1.venue
  lost_bid-RestsTwice h = rw (unsafe_submit-venue h) after_second-RestsTwice
