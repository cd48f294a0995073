-- ===== src/SafeFlow/Recovery.antt =====
-- safe_flow.py, `recover` over fake_processor.py: a new worker over the same store.
use financial_engineering_sk.Prelude.{
  ◌≡◌, refl, ◌∙◌, not, ◌||◌, List, [], ◌∷◌, String, ◌==◌, string_eq, list_eq, Result, ok, err, Exec,
  ◌>>=◌, continue, Hook, absent, Bool-cases, inl, inr,
}
use financial_engineering_sk.Value.{Value, none_value}
use financial_engineering_sk.Money.{AuthorityScope, fields}
use financial_engineering_sk.Processor.State.{FakeProcessor}
use financial_engineering_sk.Processor.Answers.{fake_api}
use financial_engineering_sk.Processor.{lookup_charge}
use financial_engineering_sk.Store.Record.{Intent, IntentUpdate, captured, authority_of, state_beq}
use financial_engineering_sk.Store.{all_intents}
use financial_engineering_sk.Store.Effects.{commit_effect-keeps}
use financial_engineering_sk.SafeFlow.Worker.{Flow, on_processor, bound}
use financial_engineering_sk.SafeFlow.Answers.{validated_charge}
use financial_engineering_sk.SafeFlow.Capture.{
  capture_args, capture, recover_answer, recover_intent, recover_all, recover,
}
use financial_engineering_sk.SafeFlow.Keeps.{Good}

-- The processor's charges and settlements are as they were, and the store is in good order.
record Unpaid {A : Type 0} (f : Flow FakeProcessor) (r : Result A × Flow FakeProcessor)
    : Type 0 where
  good : Good r.1.store
  charges : r.1.processor.charges ≡ f.processor.charges
  settlements : r.1.processor.settlements ≡ f.processor.settlements

abbrev Quiet : {A : Type 0} → Exec (Flow FakeProcessor) A → Type 0
Quiet m = (f : Flow FakeProcessor) → Good f.store → Unpaid f (m f)

still : {A : Type 0} (r : Result A) (f : Flow FakeProcessor) → Good f.store → Unpaid f (r, f)
still r f g = record { good = g; charges = refl; settlements = refl }

module _ {A B : Type 0} where
  continue-Quiet :
      (next : A → Exec (Flow FakeProcessor) B) (f : Flow FakeProcessor)
      (r : Result A × Flow FakeProcessor)
      → Unpaid f r
      → ((a : A) → Quiet (next a))
      → Unpaid f (continue r.0 next r.1)
  continue-Quiet next f (ok a, f') u h =
      let later = h a f' u.good in
      record {
        good = later.good;
        charges = later.charges ∙ u.charges;
        settlements = later.settlements ∙ u.settlements;
      }
  continue-Quiet next f (err e, f') u h = record {
    good = u.good;
    charges = u.charges;
    settlements = u.settlements;
  }

  Quiet-then :
      (m : Exec (Flow FakeProcessor) A) (next : A → Exec (Flow FakeProcessor) B)
      → Quiet m
      → ((a : A) → Quiet (next a))
      → Quiet (m >>= next)
  Quiet-then m next q h f g = continue-Quiet next f (m f) (q f g) h

module _ (authority : AuthorityScope) where
  Quiet-bound : (i : Intent) → Quiet (bound authority i)
  unfolding bound
  Quiet-bound i f g = elim (Bool-cases (authority_of i == fields authority)) [
    | inl e ↦ rw e (still _ f g)
    | inr e ↦ rw e (still _ f g)
  ]

  Quiet-capture :
      (i : Intent) (charge : Value) (seam after_entry : Hook)
      → Quiet (capture authority i charge seam after_entry)
  unfolding capture
  Quiet-capture i charge seam after_entry = Quiet-then _ _ (Quiet-bound i) λ _.
      Quiet-then _ _ (λ f g. still (validated_charge authority charge i) f g)
        λ c f g.
          let a = capture_args authority c seam in
          let u : List (String × IntentUpdate) =
            (i.key, record { state = captured; charge_id = c.charge_id }) ∷ [] in
          let k = commit_effect-keeps a u after_entry f.store g.ledger g.pins in
          record { good = record { ledger = k.0; pins = k.1 }; charges = refl; settlements = refl }

  Quiet-answer : (i : Intent) (seam : Hook) (v : Value) → Quiet (recover_answer authority i seam v)
  unfolding recover_answer
  Quiet-answer i seam none_value f g = still _ f g
  Quiet-answer i seam v f g =
      Quiet-then _ _ (Quiet-capture i v seam absent) (λ a f' g'. still _ f' g') f g

  Quiet-lookup : (key : String) → Quiet (on_processor (fake_api.lookup key))
  unfolding fake_api lookup_charge
  Quiet-lookup key f g = record { good = g; charges = refl; settlements = refl }

  Quiet-intent : (i : Intent) (seam : Hook) → Quiet (recover_intent authority fake_api i seam)
  unfolding recover_intent
  Quiet-intent i seam f g =
      elim (Bool-cases (state_beq i.state captured || not (authority_of i == fields authority))) [
        | inl e ↦ rw e (still _ f g)
        | inr e ↦
            rw e (Quiet-then _ _ (Quiet-lookup i.key) (λ charge. Quiet-answer i seam charge) f g)
      ]

  Quiet-all :
      (intents : List Intent) (seam : Hook) → Quiet (recover_all authority fake_api intents seam)
  unfolding recover_all
  Quiet-all [] seam f g = still _ f g
  Quiet-all (i ∷ intents) seam f g =
      Quiet-then _ _ (Quiet-intent i seam)
        (λ done. Quiet-then _ _ (Quiet-all intents seam) (λ later f' g'. still _ f' g')) f g

-- Recovery moves no money at the processor, whatever is on file and wherever it is interrupted: the
-- charges and the settlements are as they were, and the store keeps its invariants.
pub recovery_moves_no_money :
    (authority : AuthorityScope) (seam : Hook) (f : Flow FakeProcessor)
    → Good f.store
    → let f' = (recover authority fake_api seam f).1 in
      (f'.processor.charges ≡ f.processor.charges)
      × ((f'.processor.settlements ≡ f.processor.settlements) × Good f'.store)
unfolding recover
recovery_moves_no_money authority seam f g =
    let u = Quiet-all authority (all_intents f.store) seam f g in
    (u.charges, (u.settlements, u.good))
