-- ===== src/Venue/History.antt =====
-- fake_venue.py: sequences of calls, the operator's script, and what every call keeps.
use financial_engineering_sk.Prelude.{
  ◌≡◌, refl, ℕ, ◌+◌, Bool, false, List, [], ◌∷◌, ◌++◌, Option, none, some, String, ◌⧺◌, ◌==◌,
  string_eq, int_eq, length, Result, ok, err, Exec, value_error, Bool-cases, inl, inr, pure, ◌>>=◌,
  ◌>>◌, gets, raise,
}
use financial_engineering_sk.Prelude.Dict.{Dict, lookup, insert}
use financial_engineering_sk.Prelude.Decimal.{padded}
use financial_engineering_sk.Prelude.Int.{ℤ, ◌-ℤ◌, ltb_ℤ}
use financial_engineering_sk.Venue.Messages.{OrderRequest, request_eq, Body, order_accepted, Event}
use financial_engineering_sk.Venue.State.{
  VenueOrder, FakeVenue, is_working, emit, next_event, is_set,
}
use financial_engineering_sk.Venue.Placing.{
  new_order, accept, answer_valid, place_new, place_known, place_by_key, place_order, validate,
}
use financial_engineering_sk.Venue.Trading.{
  cancel_order, cancel_by_key, cancel, filled_order, book_fill, fill_order, fill_by_key, fill,
}
use financial_engineering_sk.Venue.Payouts.{
  check_vector, determined, determine, resolved, resolve, events_since,
}

pub data VenueCall : Type 0 where
  placed : (req : OrderRequest) (signature : String) → VenueCall
  cancelled : (client_key : String) → VenueCall
  filled : (client_key : String) (qty price : ℤ) (liquidity : String) → VenueCall
  determined_as resolved_as : (numerators : List ℤ) (denominator : ℤ) → VenueCall

pub data ScriptStep : Type 0 where
  place_step : (client_key outcome side : String) (qty price : ℤ) → ScriptStep
  fill_step : (client_key : String) (qty price : ℤ) (liquidity : String) → ScriptStep
  cancel_step : (client_key : String) → ScriptStep
  resolve_step : (numerators : List ℤ) (denominator : ℤ) → ScriptStep
  unknown_step : (action : String) → ScriptStep

abbrev pub is_acceptance : String → Body → Bool
is_acceptance k (order_accepted _ client_key _ _ _ _) = client_key == k
is_acceptance k _ = false

module _ (sign_request : OrderRequest → String) where
  unfoldable pub call : VenueCall → FakeVenue → FakeVenue
  call (placed req signature) v = (place_order sign_request req signature v).1
  call (cancelled k) v = (cancel k v).1
  call (filled k qty price liquidity) v = (fill k qty price liquidity v).1
  call (determined_as ns d) v = (determine ns d v).1
  call (resolved_as ns d) v = (resolve ns d v).1

  unfoldable pub replay : List VenueCall → FakeVenue → FakeVenue
  replay [] v = v
  replay (c ∷ cs) v = replay cs (call c v)

  abbrev script_request : String → String → String → ℤ → ℤ → FakeVenue → OrderRequest
  script_request k outcome side qty price v = record {
    client_key = k;
    market_id = v.market.market_id;
    outcome = outcome;
    side = side;
    qty = qty;
    price_micro = price;
  }

  unfoldable pub run_step : ScriptStep → Exec FakeVenue Unit
  run_step (place_step k outcome side qty price) = do
    req ← gets (script_request k outcome side qty price)
    place_order sign_request req (sign_request req)
    pure tt
  run_step (fill_step k qty price liquidity) = do fill k qty price liquidity; pure tt
  run_step (cancel_step k) = do cancel k; pure tt
  run_step (resolve_step ns d) = do resolve ns d; pure tt
  run_step (unknown_step _) = raise value_error

  unfoldable pub run_script : List ScriptStep → Exec FakeVenue (List Event)
  unfolding run_step
  run_script [] = gets (events_since 0)
  run_script (s ∷ ss) = do run_step s; run_script ss

-- What a predicate on the orders, the keys, the log and the next number needs to be kept by every
-- call of the venue.
abbrev pub OnVenue : Type 1
OnVenue = Dict String VenueOrder → Dict String String → List Event → ℕ → Type 0

pub record IsKept (P : OnVenue) : Type 0 where
  pub told :
      (os : Dict String VenueOrder) (ks : Dict String String) (es : List Event) (n : ℕ) (e : Event)
      → ((k : String) → is_acceptance k e.body ≡ false)
      → e.seq ≡ length es + 1
      → P os ks es n
      → P os ks (es ++ e ∷ []) n
  pub revised :
      (os : Dict String VenueOrder) (ks : Dict String String) (es : List Event) (n : ℕ)
      (id : String) (o o' : VenueOrder)
      → lookup id os ≡ some o
      → o'.request ≡ o.request
      → P os ks es n
      → P (insert id o' os) ks es n
  pub taken :
      (os : Dict String VenueOrder) (ks : Dict String String) (es : List Event) (n : ℕ) (e : Event)
      (req : OrderRequest)
      → lookup req.client_key ks ≡ none
      → ((k : String) → is_acceptance k e.body ≡ (req.client_key == k))
      → e.seq ≡ length es + 1
      → P os ks es n
      → P
          (insert ("ord-" ⧺ padded n) (new_order ("ord-" ⧺ padded n) req) os)
          (insert req.client_key ("ord-" ⧺ padded n) ks)
          (es ++ e ∷ [])
          (n + 1)

abbrev pub At : OnVenue → FakeVenue → Type 0
At P v = P v.orders v.by_client_key v.events v.next_order

module _ (P : OnVenue) (kept : IsKept P) where
  emit-kept :
      (body : Body) (v : FakeVenue)
      → ((k : String) → is_acceptance k body ≡ false)
      → At P v
      → At P (emit body v)
  unfolding emit next_event
  emit-kept body v other h =
      kept.told v.orders v.by_client_key v.events v.next_order (next_event body v) other refl h

  accept-kept :
      (req : OrderRequest) (v : FakeVenue)
      → lookup req.client_key v.by_client_key ≡ none
      → At P v
      → At P (accept req v)
  unfolding accept emit next_event
  accept-kept req v new h =
      kept.taken v.orders v.by_client_key v.events v.next_order _ req new (λ k. refl) refl h

  answer_valid-kept :
      (req : OrderRequest) (fault : Option String) (v : FakeVenue)
      → lookup req.client_key v.by_client_key ≡ none
      → At P v
      → At P (answer_valid req fault v).1
  unfolding answer_valid
  answer_valid-kept req none v new h = accept-kept req v new h
  answer_valid-kept req (some fault) v new h =
      elim (Bool-cases (fault == "ambiguous_before_accept")) [
        | inl e ↦ rw e h
        | inr e ↦ elim (Bool-cases (fault == "ambiguous_after_accept")) [
          | inl d ↦ rw (e, d) (accept-kept req v new h)
          | inr d ↦ rw (e, d) (accept-kept req v new h)
        ]
      ]

  place_new-kept :
      (req : OrderRequest) (r : Result (Unit {0})) (v : FakeVenue)
      → lookup req.client_key v.by_client_key ≡ none
      → At P v
      → At P (place_new req r v).1
  place_new-kept req (err e) v new h = h
  place_new-kept req (ok _) v new h = answer_valid-kept req _ (record v { faults = _ }) new h

  place_known-kept :
      (req : OrderRequest) (r : Option VenueOrder) (v : FakeVenue)
      → At P v
      → At P (place_known req r v).1
  place_known-kept req none v h = h
  place_known-kept req (some o) v h = elim (Bool-cases (o.request == req)) [
    | inl e ↦ rw e h
    | inr e ↦ rw e h
  ]

  place_by_key-kept :
      (req : OrderRequest) (r : Option String) (v : FakeVenue)
      → lookup req.client_key v.by_client_key ≡ r
      → At P v
      → At P (place_by_key req r v).1
  place_by_key-kept req none v new h = place_new-kept req (validate req v) v new h
  place_by_key-kept req (some id) v e h = place_known-kept req (lookup id v.orders) v h

  cancel_order-kept :
      (k id : String) (r : Option VenueOrder) (v : FakeVenue)
      → lookup id v.orders ≡ r
      → At P v
      → At P (cancel_order k id r v).1
  cancel_order-kept k id none v e h = h
  cancel_order-kept k id (some o) v e h = elim (Bool-cases (is_working o.state)) [
    | inl d ↦ rw d (
        emit-kept _ (record v { orders = _ }) (λ k. refl)
          (kept.revised v.orders v.by_client_key v.events v.next_order id o _ e refl h))
    | inr d ↦ rw d h
  ]

  cancel_by_key-kept :
      (k : String) (r : Option String) (v : FakeVenue) → At P v → At P (cancel_by_key k r v).1
  cancel_by_key-kept k none v h = h
  cancel_by_key-kept k (some id) v h = cancel_order-kept k id (lookup id v.orders) v refl h

  book_fill-kept :
      (o : VenueOrder) (k : String) (qty price : ℤ) (liquidity : String) (r : Option ℤ)
      (v : FakeVenue)
      → At P v
      → At P (book_fill o k qty price liquidity r v).1
  book_fill-kept o k qty price liquidity none v h = h
  book_fill-kept o k qty price liquidity (some held) v h =
      emit-kept _ (record v { positions_held = _ }) (λ k. refl) h

  fill_order-kept :
      (id k : String) (qty price : ℤ) (liquidity : String) (r : Option VenueOrder) (v : FakeVenue)
      → lookup id v.orders ≡ r
      → At P v
      → At P (fill_order id k qty price liquidity r v).1
  fill_order-kept id k qty price liquidity none v e h = h
  fill_order-kept id k qty price liquidity (some o) v e h =
      elim (Bool-cases (ltb_ℤ (o.qty -ℤ o.done) qty)) [
        | inl d ↦ rw d h
        | inr d ↦ rw d (
            book_fill-kept o k qty price liquidity (lookup o.outcome v.positions_held)
              (record v { orders = _ })
              (kept.revised v.orders v.by_client_key v.events v.next_order id o (filled_order qty o)
                e refl h))
      ]

  fill_by_key-kept :
      (k : String) (qty price : ℤ) (liquidity : String) (r : Option String) (v : FakeVenue)
      → At P v
      → At P (fill_by_key k qty price liquidity r v).1
  fill_by_key-kept k qty price liquidity none v h = h
  fill_by_key-kept k qty price liquidity (some id) v h =
      fill_order-kept id k qty price liquidity (lookup id v.orders) v refl h

  determined-kept :
      (ns : List ℤ) (d : ℤ) (r : Result (Unit {0})) (v : FakeVenue)
      → At P v
      → At P (determined ns d r v).1
  determined-kept ns d (err e) v h = h
  determined-kept ns d (ok _) v h = emit-kept _ (record v { determination = _ }) (λ k. refl) h

  resolved-kept :
      (ns : List ℤ) (d : ℤ) (r : Result (Unit {0})) (v : FakeVenue)
      → At P v
      → At P (resolved ns d r v).1
  resolved-kept ns d (err e) v h = h
  resolved-kept ns d (ok _) v h = emit-kept _ (record v { resolution = _ }) (λ k. refl) h

  module _ (sign_request : OrderRequest → String) where
    place_order-kept :
        (req : OrderRequest) (signature : String) (v : FakeVenue)
        → At P v
        → At P (place_order sign_request req signature v).1
    unfolding place_order
    place_order-kept req signature v h = elim (Bool-cases (signature == sign_request req)) [
      | inl e ↦ rw e (place_by_key-kept req (lookup req.client_key v.by_client_key) v refl h)
      | inr e ↦ rw e h
    ]

    determine-kept : (ns : List ℤ) (d : ℤ) (v : FakeVenue) → At P v → At P (determine ns d v).1
    unfolding determine
    determine-kept ns d v h = elim (Bool-cases (is_set v.resolution)) [
      | inl e ↦ rw e h
      | inr e ↦ rw e (determined-kept ns d (check_vector ns d v) v h)
    ]

    pub call-kept : (c : VenueCall) (v : FakeVenue) → At P v → At P (call sign_request c v)
    unfolding call cancel fill resolve
    call-kept (placed req signature) v h = place_order-kept req signature v h
    call-kept (cancelled k) v h = cancel_by_key-kept k (lookup k v.by_client_key) v h
    call-kept (filled k qty price liquidity) v h =
        fill_by_key-kept k qty price liquidity (lookup k v.by_client_key) v h
    call-kept (determined_as ns d) v h = determine-kept ns d v h
    call-kept (resolved_as ns d) v h = resolved-kept ns d (check_vector ns d v) v h

    pub replay-kept :
        (cs : List VenueCall) (v : FakeVenue) → At P v → At P (replay sign_request cs v)
    unfolding replay
    replay-kept [] v h = h
    replay-kept (c ∷ cs) v h = replay-kept cs (call sign_request c v) (call-kept c v h)
