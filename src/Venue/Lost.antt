-- ===== src/Venue/Lost.antt =====
-- fake_venue.py: what an answer that was lost leaves at the venue.
use financial_engineering_sk.Prelude.{
  ◌≡◌, ◌≢◌, inl, inr, refl, sym, ap, ◌∙◌, Bool, true, false, ◌==◌, string_eq, int_eq, Option, none,
  some, String, Result, ok, err, Error, ambiguous_response, Bool-cases, err≢ok, subst, key_error,
  eq_self,
}
use financial_engineering_sk.Prelude.Dict.{Dict, lookup, remove, lookup-insert_self, lookup-remove}
use financial_engineering_sk.Prelude.Int.{ℤ, ltb_ℤ, ◌+ℤ◌}
use financial_engineering_sk.Venue.Messages.{OrderRequest, request_eq, sell}
use financial_engineering_sk.Venue.State.{VenueOrder, FakeVenue, OrderView, view, emit}
use financial_engineering_sk.Venue.Placing.{
  refuse_if, check_cover, covered, resting, validate, new_order, next_order_id, accept,
  answer_valid, place_new, place_known, place_by_key, place_order,
}
use financial_engineering_sk.Venue.Trading.{found_view, get_order_by_client_key}

-- A refusal is no lost answer.
abbrev IsRefusal : Result (Unit {0}) → Type 0
IsRefusal r = r ≢ err ambiguous_response

refuse_if-IsRefusal :
    (t : Bool) (reason : String) (r : Result (Unit {0}))
    → IsRefusal r
    → IsRefusal (refuse_if t reason r)
unfolding refuse_if
refuse_if-IsRefusal true reason r h = λ q. cc
refuse_if-IsRefusal false reason r h = h

covered-IsRefusal :
    (req : OrderRequest) (orders : Dict String VenueOrder) (held : Option ℤ)
    → IsRefusal (covered req orders held)
covered-IsRefusal req orders none = λ q. cc
covered-IsRefusal req orders (some held) =
    elim (Bool-cases (ltb_ℤ held (req.qty +ℤ resting req.outcome orders))) [
      | inl e ↦ rw e (λ q. cc)
      | inr e ↦ rw e (λ q. cc)
    ]

check_cover-IsRefusal : (req : OrderRequest) (v : FakeVenue) → IsRefusal (check_cover req v)
check_cover-IsRefusal req v = elim (Bool-cases (req.side == sell)) [
  | inl e ↦ rw e (covered-IsRefusal req v.orders (lookup req.outcome v.positions_held))
  | inr e ↦ rw e (λ q. cc)
]

validate-IsRefusal : (req : OrderRequest) (v : FakeVenue) → IsRefusal (validate req v)
unfolding validate
validate-IsRefusal req v = refuse_if-IsRefusal _ _ _ (
    refuse_if-IsRefusal _ _ _ (
      refuse_if-IsRefusal _ _ _ (
        refuse_if-IsRefusal _ _ _ (
          refuse_if-IsRefusal _ _ _ (
            refuse_if-IsRefusal _ _ _ (
              refuse_if-IsRefusal _ _ _
                (refuse_if-IsRefusal _ _ _ (check_cover-IsRefusal req v))))))))

-- The state of the venue with the fault of a key used up.
abbrev pub without_fault : OrderRequest → FakeVenue → FakeVenue
without_fault req v = record v { faults = remove req.client_key v.faults }

-- A valid request whose answer was lost: the order stands, or the venue has not seen it.
pub data Lost (req : OrderRequest) (v : FakeVenue) : FakeVenue → Type 0 where
  accepted : Lost req v (accept req (without_fault req v))
  unseen : Lost req v (without_fault req v)

-- The answer of `answer_valid` with no fault: the order, as it now stands.
pub answer_valid-view :
    (req : OrderRequest) (v : FakeVenue)
    → answer_valid req none v ≡ (ok (view (new_order (next_order_id v) req)), accept req v)
unfolding answer_valid accept emit
answer_valid-view req v =
    rw (lookup-insert_self (next_order_id v) (new_order (next_order_id v) req) v.orders) refl

-- A result that is no ambiguous answer.
ok_answered :
    {A : Type 0} {a : A} {v w : FakeVenue} {B : Type 0}
    → ◌≡◌ {A = Result A × FakeVenue} (ok a, v) (err ambiguous_response, w)
    → B
ok_answered {A} h = absurd (err≢ok (sym (ap (λ (r : Result A × FakeVenue). r.0) h)))

module _ (req : OrderRequest) where
  -- What is known of the state that an ambiguous answer leaves.
  pub record LostAt (v v' : FakeVenue) : Type 0 where
    pub valid : validate req v ≡ ok tt
    pub new : lookup req.client_key v.by_client_key ≡ none
    pub lost : Lost req v v'

  state_of :
      (e : Error) (v v' : FakeVenue)
      → ◌≡◌ {A = Result OrderView × FakeVenue} (err e, v) (err ambiguous_response, v')
      → (e ≡ ambiguous_response) × (v ≡ v')
  state_of e v v' h = (
    err_same (ap (λ (r : Result OrderView × FakeVenue). r.0) h),
    ap (λ (r : Result OrderView × FakeVenue). r.1) h,
  )
    where
      err_same : {e f : Error} → ◌≡◌ {A = Result OrderView} (err e) (err f) → e ≡ f
      err_same q = cc

  answer_valid-Lost :
      (fault : Option String) (v v' : FakeVenue)
      → answer_valid req fault (without_fault req v) ≡ (err ambiguous_response, v')
      → Lost req v v'
  unfolding answer_valid
  answer_valid-Lost none v v' =
      λ h. ok_answered (sym (answer_valid-view req (without_fault req v)) ∙ h)
  answer_valid-Lost (some fault) v v' = elim (Bool-cases (fault == "ambiguous_before_accept")) [
    | inl e ↦ rw e (λ h. subst (Lost req v) (state_of ambiguous_response _ v' h).1 unseen)
    | inr e ↦ elim (Bool-cases (fault == "ambiguous_after_accept")) [
      | inl d ↦ rw (e, d) (λ h. subst (Lost req v) (state_of ambiguous_response _ v' h).1 accepted)
      | inr d ↦ rw (e, d) (λ h. ok_answered (sym (answer_valid-view req (without_fault req v)) ∙ h))
    ]
  ]

  place_new-Lost :
      (r : Result (Unit {0})) (v v' : FakeVenue)
      → validate req v ≡ r
      → place_new req r v ≡ (err ambiguous_response, v')
      → (validate req v ≡ ok tt) × Lost req v v'
  place_new-Lost (err e) v v' q h =
      absurd (validate-IsRefusal req v (q ∙ ap err (state_of e v v' h).0))
  place_new-Lost (ok _) v v' q h = (q, answer_valid-Lost (lookup req.client_key v.faults) v v' h)

  place_known-answers :
      (o : Option VenueOrder) (v v' : FakeVenue)
      → place_known req o v ≢ (err ambiguous_response, v')
  place_known-answers none v v' = λ h. cc (state_of key_error v v' h).0
  place_known-answers (some o) v v' = elim (Bool-cases (o.request == req)) [
    | inl e ↦ rw e (λ h. ok_answered h)
    | inr e ↦ rw e (λ h. cc (state_of _ v v' h).0)
  ]

  place_by_key-LostAt :
      (r : Option String) (v v' : FakeVenue)
      → lookup req.client_key v.by_client_key ≡ r
      → place_by_key req r v ≡ (err ambiguous_response, v')
      → LostAt v v'
  place_by_key-LostAt (some id) v v' q h = absurd (place_known-answers (lookup id v.orders) v v' h)
  place_by_key-LostAt none v v' q h =
      let (valid, lost) = place_new-Lost (validate req v) v v' refl h in
      record { valid = valid; new = q; lost = lost }

  module _ (sign_request : OrderRequest → String) where
    pub place_order-LostAt :
        (v v' : FakeVenue)
        → place_order sign_request req (sign_request req) v ≡ (err ambiguous_response, v')
        → LostAt v v'
    unfolding place_order
    place_order-LostAt v v' =
        rw (eq_self (sign_request req))
          (place_by_key-LostAt (lookup req.client_key v.by_client_key) v v' refl)

    -- A request that the venue has not seen is accepted when it is sent again.
    pub unseen_is_accepted :
        (v v' : FakeVenue)
        → LostAt v v'
        → v' ≡ without_fault req v
        → place_order sign_request req (sign_request req) v' ≡ (
          ok (view (new_order (next_order_id v) req)),
          accept req (without_fault req (without_fault req v)),
        )
    unfolding place_order validate
    unseen_is_accepted v v' h e = rw e (
        rw (eq_self (sign_request req), h.new, h.valid, cleared)
          (answer_valid-view req (without_fault req (without_fault req v))))
      where
        cleared : lookup req.client_key (remove req.client_key v.faults) ≡ none
        cleared =
            lookup-remove req.client_key req.client_key v.faults ∙ rw (eq_self req.client_key) refl

-- An order that was accepted is found under its key.
pub accepted_is_found :
    (req : OrderRequest) (v : FakeVenue)
    → get_order_by_client_key req.client_key (accept req v)
      ≡ ok (some (view (new_order (next_order_id v) req)))
unfolding get_order_by_client_key accept emit
accepted_is_found req v =
    rw
      (
        lookup-insert_self req.client_key (next_order_id v) v.by_client_key,
        found_view,
        lookup-insert_self (next_order_id v) (new_order (next_order_id v) req) v.orders,
      )
      refl

pub unseen_is_not_found :
    (req : OrderRequest) (v : FakeVenue)
    → lookup req.client_key v.by_client_key ≡ none
    → get_order_by_client_key req.client_key (without_fault req v) ≡ ok none
unfolding get_order_by_client_key
unseen_is_not_found req v h = rw h refl
