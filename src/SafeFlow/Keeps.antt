-- ===== src/SafeFlow/Keeps.antt =====
-- safe_flow.py over fake_processor.py: what a worker's steps keep of the store, and what they may
-- add to the processor under one key.
use financial_engineering_sk.Prelude.{
  ◌≡◌, refl, sym, ap, ◌∙◌, subst, none, some, String, string_eq, list_eq, ◌⊎◌, inl, inr, Result, ok,
  err, ambiguous_timeout, ok-injective, err≢ok, Exec, pure, lift, gets, ◌>>=◌, continue, Hook,
  run_hook, absent, returns, raises,
}
use financial_engineering_sk.Prelude.Dict.{lookup, insert, lookup-insert_self}
use financial_engineering_sk.Processor.Interface.{ChargeRequest}
use financial_engineering_sk.Processor.State.{Charge, FakeProcessor}
use financial_engineering_sk.Processor.Answers.{fake_api, charge_value}
use financial_engineering_sk.Prelude.Int.{ℤ}
use financial_engineering_sk.Processor.Charging.{charge_refused}
use financial_engineering_sk.Processor.Once.{charge-Grown}
use financial_engineering_sk.Processor.{checked_request, new_charge, charge, lookup_charge}
use financial_engineering_sk.Ledger.Commit.Invariant.{IsValid}
use financial_engineering_sk.Store.Record.{Store}
use financial_engineering_sk.Store.Authority.{HasOneAuthority}
use financial_engineering_sk.SafeFlow.Worker.{Flow, on_processor, or_on_timeout}

-- The charges are as they were, or the key had none and has one now, all others as they were.
abbrev pub AtMostOne : String → FakeProcessor → FakeProcessor → Type 0
AtMostOne key p q =
    (q.charges ≡ p.charges)
    ⊎ ((c : Charge) × (lookup key p.charges ≡ none) × (q.charges ≡ insert key c p.charges))

present≢missing : {c : Charge} → some c ≡ none → ⊥
present≢missing h = cc

pub AtMostOne-then :
    (key : String) (p q r : FakeProcessor)
    → AtMostOne key p q
    → AtMostOne key q r
    → AtMostOne key p r
AtMostOne-then key p q r (inl same) (inl still) = inl (still ∙ same)
AtMostOne-then key p q r (inl same) (inr (c, missing, grown)) =
    inr (c, ap (lookup key) (sym same) ∙ missing, grown ∙ ap (insert key c) same)
AtMostOne-then key p q r (inr (c, missing, grown)) (inl still) = inr (c, missing, still ∙ grown)
AtMostOne-then key p q r (inr (c, missing, grown)) (inr (d, again, more)) = absurd (
    present≢missing
      (sym (lookup-insert_self key c p.charges) ∙ (ap (lookup key) (sym grown) ∙ again)))

-- The invariants of what the workers share.
pub record Good (s : Store) : Type 0 where
  pub ledger : IsValid s.ledger
  pub pins : HasOneAuthority s

pub record Kept {A : Type 0} (key : String) (Q : A → Type 0) (f : Flow FakeProcessor)
    (r : Result A × Flow FakeProcessor) : Type 0 where
  pub good : Good r.1.store
  pub charges : AtMostOne key f.processor r.1.processor
  pub answer : (a : A) → r.0 ≡ ok a → Q a

-- From good states, a step stays in them, charges the key at most once, and answers what it should.
abbrev pub Keeps : {A : Type 0} → String → (A → Type 0) → Exec (Flow FakeProcessor) A → Type 0
Keeps key Q m = (f : Flow FakeProcessor) → Good f.store → Kept key Q f (m f)

module _ (key : String) {A : Type 0} (Q : A → Type 0) where
  pub Keeps-lift : (r : Result A) → ((a : A) → r ≡ ok a → Q a) → Keeps key Q (lift r)
  Keeps-lift r q f g = record { good = g; charges = inl refl; answer = q }

  pub Keeps-pure : (a : A) → Q a → Keeps key Q (pure a)
  Keeps-pure a q f g = record {
    good = g;
    charges = inl refl;
    answer = λ b h. subst Q (ok-injective h) q;
  }

  module _ {B : Type 0} (R : B → Type 0) where
    continue-Keeps :
        (next : A → Exec (Flow FakeProcessor) B) (f : Flow FakeProcessor)
        (r : Result A × Flow FakeProcessor)
        → Kept key Q f r
        → ((a : A) → Q a → Keeps key R (next a))
        → Kept key R f (continue r.0 next r.1)
    continue-Keeps next f (ok a, f') k h =
        let later = h a (k.answer a refl) f' k.good in
        record {
          good = later.good;
          charges =
              AtMostOne-then key f.processor f'.processor (next a f').1.processor k.charges
                later.charges;
          answer = later.answer;
        }
    continue-Keeps next f (err e, f') k h = record {
      good = k.good;
      charges = k.charges;
      answer = λ b q. absurd (err≢ok q);
    }

    pub Keeps-then :
        (m : Exec (Flow FakeProcessor) A) (next : A → Exec (Flow FakeProcessor) B)
        → Keeps key Q m
        → ((a : A) → Q a → Keeps key R (next a))
        → Keeps key R (m >>= next)
    Keeps-then m next k h f g = continue-Keeps next f (m f) (k f g) h

  timeout-Keeps :
      (handler : Exec (Flow FakeProcessor) A) (f : Flow FakeProcessor)
      (r : Result A × Flow FakeProcessor)
      → Kept key Q f r
      → Keeps key Q handler
      → Kept key Q f (or_on_timeout handler r)
  timeout-Keeps handler f (ok a, f') k h = k
  timeout-Keeps handler f (err ambiguous_timeout, f') k h =
      let later = h f' k.good in
      record {
        good = later.good;
        charges =
            AtMostOne-then key f.processor f'.processor (handler f').1.processor k.charges
              later.charges;
        answer = later.answer;
      }
  timeout-Keeps handler f (err _, f') k h = k

  pub Keeps-or_on_timeout :
      (m handler : Exec (Flow FakeProcessor) A)
      → Keeps key Q m
      → Keeps key Q handler
      → Keeps key Q (λ f. or_on_timeout handler (m f))
  Keeps-or_on_timeout m handler k h f g = timeout-Keeps handler f (m f) (k f g) h

  -- What the answer depends on may be known of the state.
  pub Keeps-gets :
      (get : Flow FakeProcessor → A)
      → ((f : Flow FakeProcessor) → Good f.store → Q (get f))
      → Keeps key Q (gets get)
  Keeps-gets get q f g = record {
    good = g;
    charges = inl refl;
    answer = λ a h. subst Q (ok-injective h) (q f g);
  }

module _ (key : String) where
  -- Any answer.
  abbrev pub Anything : {A : Type 0} → A → Type 0
  Anything a = Unit

  pub Keeps-hook : (h : Hook) → Keeps key Anything (λ (f : Flow FakeProcessor). run_hook h f)
  unfolding run_hook
  Keeps-hook absent f g = record { good = g; charges = inl refl; answer = λ a q. tt }
  Keeps-hook returns f g = record { good = g; charges = inl refl; answer = λ a q. tt }
  Keeps-hook (raises e) f g = record { good = g; charges = inl refl; answer = λ a q. tt }

  pub Keeps-lookup : (k : String) → Keeps key Anything (on_processor (fake_api.lookup k))
  unfolding fake_api lookup_charge
  Keeps-lookup k f g = record { good = g; charges = inl refl; answer = λ a q. tt }

  -- A request that, if it is well formed, carries this key.
  abbrev pub IsUnder : ChargeRequest → Type 0
  IsUnder req = (k : String) (e : String × (ℤ × String)) → checked_request req ≡ ok (k, e) → k ≡ key

  charge-AtMostOne :
      (req : ChargeRequest) (p : FakeProcessor) → IsUnder req → AtMostOne key p (charge req p).1
  charge-AtMostOne req p under = go (checked_request req) refl
    where
      named :
          (e : String × (ℤ × String))
          → checked_request req ≡ ok (key, e)
          → AtMostOne key p (charge req p).1
      named e q = elim (charge-Grown req q p) [
        | inl same ↦ inl same
        | inr (o, missing, grown) ↦ inr (new_charge key e o, missing, grown)
      ]

      go :
          (r : Result (String × (String × (ℤ × String))))
          → checked_request req ≡ r
          → AtMostOne key p (charge req p).1
      go (err e) q = inl (ap (λ (p : FakeProcessor). p.charges) (charge_refused req p q))
      go (ok (k, e)) q =
          named e (subst (λ (j : String). checked_request req ≡ ok (j, e)) (under k e q) q)

  answered-AtMostOne :
      (r : Result Charge × FakeProcessor) → (continue r.0 (λ c. pure (charge_value c)) r.1).1 ≡ r.1
  answered-AtMostOne (ok c, p) = refl
  answered-AtMostOne (err e, p) = refl

  pub Keeps-charge :
      (req : ChargeRequest) → IsUnder req → Keeps key Anything (on_processor (fake_api.charge req))
  unfolding fake_api
  Keeps-charge req under f g = record {
    good = g;
    charges =
        rw (answered-AtMostOne (charge req f.processor)) (charge-AtMostOne req f.processor under);
    answer = λ a q. tt;
  }
