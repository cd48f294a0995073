-- ===== src/Venue/Once.antt =====
-- fake_venue.py: one order for each client key, and one numbered log.
use financial_engineering_sk.Prelude.{
  ◌≡◌, refl, sym, ap, ◌∙◌, ℕ, suc, ◌+◌, List, [], ◌∷◌, ◌++◌, Option, none, some, String, ◌==◌,
  string_eq, if◌then◌else◌, length, arith, Bool-cases, inl, inr, eq_sound,
}
use financial_engineering_sk.Prelude.Dict.{Dict, lookup, insert, lookup-insert}
use financial_engineering_sk.Venue.Messages.{OrderRequest, request_eq, Market, Event}
use financial_engineering_sk.Venue.State.{VenueOrder, new_venue}
use financial_engineering_sk.Venue.History.{
  VenueCall, is_acceptance, replay, IsKept, At, replay-kept,
}

-- How many orders were accepted under a key.
abbrev pub acceptances : String → List Event → ℕ
acceptances k [] = 0
acceptances k (e ∷ es) = (if is_acceptance k e.body then 1 else 0) + acceptances k es

abbrev pub is_known : Option String → ℕ
is_known none = 0
is_known (some _) = 1

-- The events are numbered from `n` on.
abbrev pub NumberedFrom : ℕ → List Event → Type 0
NumberedFrom n [] = Unit
NumberedFrom n (e ∷ es) = (e.seq ≡ n) × NumberedFrom (suc n) es

acceptances-append :
    (k : String) (es : List Event) (e : Event)
    → acceptances k (es ++ e ∷ []) ≡ acceptances k es + (if is_acceptance k e.body then 1 else 0)
acceptances-append k [] e = omega arith
acceptances-append k (d ∷ es) e = omega (arith, acceptances-append k es e)

NumberedFrom-append :
    (n : ℕ) (es : List Event) (e : Event)
    → e.seq ≡ length es + n
    → NumberedFrom n es
    → NumberedFrom n (es ++ e ∷ [])
NumberedFrom-append n [] e p h = (p ∙ omega arith, tt)
NumberedFrom-append n (d ∷ es) e p h = (h.0, NumberedFrom-append (suc n) es e (p ∙ omega arith) h.1)

-- The log is numbered, and has one acceptance for each key that has an order.
pub record IsOnce (os : Dict String VenueOrder) (ks : Dict String String) (es : List Event) (n : ℕ)
    : Type 0 where
  pub once : (k : String) → acceptances k es ≡ is_known (lookup k ks)
  pub numbered : NumberedFrom 1 es

once-taken :
    (ks : Dict String String) (es : List Event) (e : Event) (req : OrderRequest) (id k : String)
    → lookup req.client_key ks ≡ none
    → is_acceptance k e.body ≡ (req.client_key == k)
    → acceptances k es ≡ is_known (lookup k ks)
    → acceptances k (es ++ e ∷ []) ≡ is_known (lookup k (insert req.client_key id ks))
once-taken ks es e req id k new told h = elim (Bool-cases (req.client_key == k)) [
  | inl same ↦
      let known : is_known (lookup k ks) ≡ 0 =
        ap (λ (j : String). is_known (lookup j ks)) (sym (eq_sound req.client_key k same))
        ∙ ap is_known new in
      rw (acceptances-append k es e, lookup-insert req.client_key k id ks, told, same)
        (omega (arith, h, known))
  | inr other ↦
      rw (acceptances-append k es e, lookup-insert req.client_key k id ks, told, other)
        (omega (arith, h))
]

IsOnce-IsKept : IsKept IsOnce
IsOnce-IsKept = record {
  told = λ os ks es n e other p h. record {
    once = λ k. rw (acceptances-append k es e, other k) (omega (arith, h.once k));
    numbered = NumberedFrom-append 1 es e p h.numbered;
  };
  revised = λ os ks es n id o o' p q h. record { once = h.once; numbered = h.numbered };
  taken = λ os ks es n e req new told p h. record {
    once = λ k. once-taken ks es e req _ k new (told k) (h.once k);
    numbered = NumberedFrom-append 1 es e p h.numbered;
  };
}

-- Whatever calls a new venue has had, with whichever faults, its log is numbered from 1 on without a
-- gap, and it has accepted one order under each client key that it knows, none under any other.
pub one_order_each_key :
    (sign_request : OrderRequest → String) (m : Market) (faults : Dict String String)
    (cs : List VenueCall)
    → At IsOnce (replay sign_request cs (new_venue m faults))
one_order_each_key sign_request m faults cs =
    replay-kept IsOnce IsOnce-IsKept sign_request cs (new_venue m faults)
      (record { once = λ k. refl; numbered = tt })
