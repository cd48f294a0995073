-- ===== src/Venue/Resend.antt =====
-- fake_venue.py: what becomes of a request that is sent again.
use financial_engineering_sk.Prelude.{
  ◌≡◌, ◌≢◌, refl, sym, ap, ◌∙◌, subst, ℕ, ◌<◌, false, Option, none, some, List, String, ◌⧺◌, ◌==◌,
  string_eq, Result, ok, err, rejected, arith, Bool-cases, inl, inr, eq_self, eq_sound, ne_test,
}
use text.Mathlib.TextLemmas.{append_cancel_left}
use financial_engineering_sk.Prelude.Dict.{Dict, lookup, insert, lookup-insert, lookup-insert_self}
use financial_engineering_sk.Prelude.Decimal.{padded, padded_injective}
use financial_engineering_sk.Venue.Messages.{OrderRequest, request_eq}
use financial_engineering_sk.Venue.State.{VenueOrder, FakeVenue, view, emit}
use financial_engineering_sk.Venue.Placing.{
  new_order, next_order_id, accept, answer_valid, place_new, place_order, validate,
}
use financial_engineering_sk.Venue.History.{
  VenueCall, placed, call, replay, OnVenue, IsKept, replay-kept,
}

-- A key whose order was accepted for this request, under an identity that was given out before.
pub record Owns (req : OrderRequest) (id : String) (os : Dict String VenueOrder)
    (ks : Dict String String) (n : ℕ) : Type 0 where
  pub keyed : lookup req.client_key ks ≡ some id
  pub filed : (o : VenueOrder) × (lookup id os ≡ some o) × (o.request ≡ req)
  pub issued : (m : ℕ) × (m < n) × (id ≡ "ord-" ⧺ padded m)

none≢some {ℓ} : {A : Type ℓ} {a : A} → none ≡ some a → ⊥
none≢some h = cc

module _ (req : OrderRequest) (id : String) where
  abbrev Owned : OnVenue
  Owned os ks es n = Owns req id os ks n

  filed-insert :
      (os : Dict String VenueOrder) (j : String) (o o' : VenueOrder)
      → lookup j os ≡ some o
      → o'.request ≡ o.request
      → (p : VenueOrder) × (lookup id os ≡ some p) × (p.request ≡ req)
      → (p : VenueOrder) × (lookup id (insert j o' os) ≡ some p) × (p.request ≡ req)
  filed-insert os j o o' found alike (p, e, r) = elim (Bool-cases (j == id)) [
    | inl same ↦
        let here : some o ≡ some p =
          sym found ∙ ap (λ (i : String). lookup i os) (eq_sound j id same) ∙ e in
        (
          o',
          rw (lookup-insert j id o' os, same) refl,
          alike ∙ ap (λ (q : VenueOrder). q.request) (some_same here) ∙ r,
        )
    | inr other ↦ (p, rw (lookup-insert j id o' os, other) e, r)
  ]
    where
      some_same : {a b : VenueOrder} → some a ≡ some b → a ≡ b
      some_same h = cc

  fresh_id :
      (n : ℕ) → (m : ℕ) × (m < n) × (id ≡ "ord-" ⧺ padded m) → (("ord-" ⧺ padded n) == id) ≡ false
  fresh_id n (m, lt, e) = ne_test ("ord-" ⧺ padded n) id (λ q.
      let same : n ≡ m =
        padded_injective n m (append_cancel_left "ord-" (padded n) (padded m) (q ∙ e)) in
      absurd (omega arith))

  Owned-IsKept : IsKept Owned
  Owned-IsKept = record {
    told = λ os ks es n e other p h. record { keyed = h.keyed; filed = h.filed; issued = h.issued };
    revised = λ os ks es n j o o' found alike h. record {
      keyed = h.keyed;
      filed = filed-insert os j o o' found alike h.filed;
      issued = h.issued;
    };
    taken = λ os ks es n e new free told p h. record {
      keyed = rw (lookup-insert new.client_key req.client_key ("ord-" ⧺ padded n) ks) (
          rw
            (ne_test new.client_key req.client_key
              (λ same. none≢some (sym free ∙ ap (λ (i : String). lookup i ks) same ∙ h.keyed)))
            h.keyed);
      filed = (
        h.filed.0,
        rw
            (
              lookup-insert ("ord-" ⧺ padded n) id (new_order ("ord-" ⧺ padded n) new) os,
              fresh_id n h.issued,
            )
            h.filed.1,
        h.filed.2,
      );
      issued = (h.issued.0, omega (arith, h.issued.1), h.issued.2);
    };
  }

-- The first placing of a key: where it leaves the key on file, the key owns its order.
module _ (req : OrderRequest) (id : String) where
  abbrev KeyIs : FakeVenue → Type 0
  KeyIs v = lookup req.client_key v.by_client_key ≡ some id

  abbrev OwnedIn : FakeVenue → Type 0
  OwnedIn v = Owns req id v.orders v.by_client_key v.next_order

  accept-Owned : (v : FakeVenue) → KeyIs (accept req v) → OwnedIn (accept req v)
  unfolding accept emit
  accept-Owned v h =
      let new = next_order_id v in
      let is_new : new ≡ id =
        same_id (sym (lookup-insert_self req.client_key new v.by_client_key) ∙ h) in
      record {
        keyed = h;
        filed = (
          new_order new req,
          subst
              (λ (j : String).
                lookup j (insert new (new_order new req) v.orders) ≡ some (new_order new req))
              is_new (lookup-insert_self new (new_order new req) v.orders),
          refl,
        );
        issued = (v.next_order, omega arith, sym is_new);
      }
    where
      same_id : {a b : String} → some a ≡ some b → a ≡ b
      same_id h = cc

  answer_valid-Owned :
      (fault : Option String) (v : FakeVenue)
      → lookup req.client_key v.by_client_key ≡ none
      → KeyIs (answer_valid req fault v).1
      → OwnedIn (answer_valid req fault v).1
  unfolding answer_valid
  answer_valid-Owned none v new = accept-Owned v
  answer_valid-Owned (some fault) v new = elim (Bool-cases (fault == "ambiguous_before_accept")) [
    | inl e ↦ rw e (λ h. absurd (none≢some (sym new ∙ h)))
    | inr e ↦ elim (Bool-cases (fault == "ambiguous_after_accept")) [
      | inl d ↦ rw (e, d) (accept-Owned v)
      | inr d ↦ rw (e, d) (accept-Owned v)
    ]
  ]

  place_new-Owned :
      (r : Result (Unit {0})) (v : FakeVenue)
      → lookup req.client_key v.by_client_key ≡ none
      → KeyIs (place_new req r v).1
      → OwnedIn (place_new req r v).1
  place_new-Owned (err e) v new h = absurd (none≢some (sym new ∙ h))
  place_new-Owned (ok _) v new h =
      answer_valid-Owned (lookup req.client_key v.faults) (record v { faults = _ }) new h

  module _ (sign_request : OrderRequest → String) where
    pub place_order-Owned :
        (signature : String) (v : FakeVenue)
        → lookup req.client_key v.by_client_key ≡ none
        → KeyIs (place_order sign_request req signature v).1
        → OwnedIn (place_order sign_request req signature v).1
    unfolding place_order
    place_order-Owned signature v new = elim (Bool-cases (signature == sign_request req)) [
      | inl e ↦ rw (e, new) (place_new-Owned (validate req v) v new)
      | inr e ↦ rw e (λ h. absurd (none≢some (sym new ∙ h)))
    ]

    pub owner_is_answered :
        (v : FakeVenue)
        → OwnedIn v
        → (o : VenueOrder) × (lookup id v.orders ≡ some o)
          × (place_order sign_request req (sign_request req) v ≡ (ok (view o), v))
    unfolding place_order
    owner_is_answered v h =
        let (o, e, r) = h.filed in
        (o, e, rw (eq_self (sign_request req), h.keyed, e, r, eq_self req) refl)

    pub intruder_is_refused :
        (v : FakeVenue) (other : OrderRequest)
        → OwnedIn v
        → other.client_key ≡ req.client_key
        → other ≢ req
        → place_order sign_request other (sign_request other) v
          ≡ (err (rejected "CLIENT_KEY_REUSED_WITH_DIFFERENT_PAYLOAD"), v)
    unfolding place_order
    intruder_is_refused v other h key differs =
        let (o, e, r) = h.filed in
        rw
          (
            eq_self (sign_request other),
            ap (λ (k : String). lookup k v.by_client_key) key ∙ h.keyed,
            e,
            ne_test o.request other (λ q. differs (sym q ∙ r)),
          )
          refl

-- Once a request has put its key on file, whatever happened since at the venue, the same request is
-- answered with the order that the key has and changes nothing, and any other request under the key
-- is refused and changes nothing.
pub resend_returns_the_order :
    (sign_request : OrderRequest → String) (req : OrderRequest) (signature id : String)
    (v : FakeVenue)
    → lookup req.client_key v.by_client_key ≡ none
    → lookup req.client_key (call sign_request (placed req signature) v).by_client_key ≡ some id
    → (cs : List VenueCall)
    → let w = replay sign_request cs (call sign_request (placed req signature) v) in
      ((o : VenueOrder) × (lookup id w.orders ≡ some o)
        × (place_order sign_request req (sign_request req) w ≡ (ok (view o), w)))
      × ((other : OrderRequest)
          → other.client_key ≡ req.client_key
          → other ≢ req
          → place_order sign_request other (sign_request other) w
            ≡ (err (rejected "CLIENT_KEY_REUSED_WITH_DIFFERENT_PAYLOAD"), w))
unfolding call
resend_returns_the_order sign_request req signature id v new taken cs =
    let w = replay sign_request cs (call sign_request (placed req signature) v) in
    let owned =
      replay-kept (Owned req id) (Owned-IsKept req id) sign_request cs
        (call sign_request (placed req signature) v)
        (place_order-Owned req id sign_request signature v new taken) in
    (
      owner_is_answered req id sign_request w owned,
      λ other key differs. intruder_is_refused req id sign_request w other owned key differs,
    )
