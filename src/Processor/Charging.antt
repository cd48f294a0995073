-- ===== src/Processor/Charging.antt =====
-- `FakeProcessor.charge`: how a request ends.
use financial_engineering_sk.Prelude.{
  ◌≡◌, ◌≢◌, refl, ap, Option, none, some, String, ◌==◌, string_eq, pair_eq, int_eq, eq_sound,
  ne_sound, Result, ok, err, Error, ambiguous_timeout, key_mismatch, wrong_authority, contains,
  Bool-cases, inl, inr, ◌⊎◌,
}
use financial_engineering_sk.Prelude.Dict.{lookup, insert}
use financial_engineering_sk.Prelude.Int.{ℤ}
use financial_engineering_sk.Value.{are_texts}
use financial_engineering_sk.Money.{fields}
use financial_engineering_sk.Processor.Interface.{ChargeRequest}
use financial_engineering_sk.Processor.State.{Charge, FakeProcessor}
use financial_engineering_sk.Processor.{
  addressed_to_me, checked_request, new_charge, charge_new, charge_arrived, charge_locked, charge,
}

abbrev pub Economic : Type 0
Economic = String × (ℤ × String)

-- How a request that is well formed and well addressed ends.
pub data Ended (key : String) (economic : Economic) (p : FakeProcessor)
    : Result Charge × FakeProcessor → Type 0 where
  lost :
      (q : FakeProcessor) → q.charges ≡ p.charges → Ended key economic p (err ambiguous_timeout, q)
  mismatched :
      (c : Charge) (q : FakeProcessor)
      → q.charges ≡ p.charges
      → lookup key p.charges ≡ some c
      → c.economic_fields ≢ economic
      → Ended key economic p (err key_mismatch, q)
  found :
      (c : Charge) (q : FakeProcessor)
      → q.charges ≡ p.charges
      → lookup key p.charges ≡ some c
      → c.economic_fields ≡ economic
      → Ended key economic p (ok c, q)
  created :
      (r : Result Charge) (o q : FakeProcessor)
      → lookup key p.charges ≡ none
      → q.charges ≡ insert key (new_charge key economic o) p.charges
      → (r ≡ ok (new_charge key economic o)) ⊎ (r ≡ err ambiguous_timeout)
      → Ended key economic p (r, q)

module _ (key : String) (economic : Economic) (p : FakeProcessor) where
  charge_new-Ended :
      (q : FakeProcessor)
      → q.charges ≡ p.charges
      → lookup key p.charges ≡ none
      → Ended key economic p (charge_new key economic q)
  unfolding charge_new
  charge_new-Ended q same missing = elim (Bool-cases (contains q.ambiguous key)) [
    | inl drops ↦
        rw drops
          (created _ q _ missing (ap (insert key (new_charge key economic q)) same) (inr refl))
    | inr answers ↦
        rw answers
          (created _ q _ missing (ap (insert key (new_charge key economic q)) same) (inl refl))
  ]

  charge_arrived-Ended :
      (q : FakeProcessor) (o : Option Charge)
      → q.charges ≡ p.charges
      → lookup key p.charges ≡ o
      → Ended key economic p (charge_arrived key economic o q)
  unfolding charge_arrived
  charge_arrived-Ended q none same e = charge_new-Ended q same e
  charge_arrived-Ended q (some c) same e = elim (Bool-cases (c.economic_fields == economic)) [
    | inl agrees ↦ rw agrees (found c q same e (eq_sound c.economic_fields economic agrees))
    | inr differs ↦ rw differs (mismatched c q same e (ne_sound c.economic_fields economic differs))
  ]

  pub charge_locked-Ended : Ended key economic p (charge_locked key economic p)
  unfolding charge_locked
  charge_locked-Ended = elim (Bool-cases (contains p.lossy key)) [
    | inl drops ↦ rw drops (lost _ refl)
    | inr arrives ↦ rw arrives (charge_arrived-Ended _ (lookup key p.charges) refl refl)
  ]

module _ (req : ChargeRequest) (p : FakeProcessor) where
  -- A request for another authority, or one that is not well formed, writes nothing.
  pub charge_refused : {e : Error} → checked_request req ≡ err e → (charge req p).1 ≡ p
  unfolding charge addressed_to_me
  charge_refused h = elim (Bool-cases (are_texts (fields p.scope) req.authority)) [
    | inl mine ↦ rw (mine, h) refl
    | inr foreign ↦ rw foreign refl
  ]

  module _ {key : String} {economic : Economic}
      (well_formed : checked_request req ≡ ok (key, economic)) where
    pub charge_cases :
        (charge req p ≡ charge_locked key economic p) ⊎ (charge req p ≡ (err wrong_authority, p))
    unfolding charge addressed_to_me
    charge_cases = elim (Bool-cases (are_texts (fields p.scope) req.authority)) [
      | inl mine ↦ inl (rw (mine, well_formed) refl)
      | inr foreign ↦ inr (rw foreign refl)
    ]
