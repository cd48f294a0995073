-- ===== src/SafeFlow/Capture.antt =====
-- safe_flow.py: posting a capture, and recovery over the intents with no local completion.
use financial_engineering_sk.Prelude.{
  ◌||◌, not, List, [], ◌∷◌, ◌++◌, some, String, ◌==◌, string_eq, list_eq, if◌then◌else◌, Exec, pure,
  lift, gets, ◌>>=◌, ◌>>◌, Hook, absent,
}
use financial_engineering_sk.Prelude.Int.{ℤ, neg}
use financial_engineering_sk.Value.{Value, none_value, dict, str, int, get}
use financial_engineering_sk.Prose.{text}
use financial_engineering_sk.Money.{AuthorityScope, fields}
use financial_engineering_sk.Processor.Interface.{ProcessorApi}
use financial_engineering_sk.Ledger.Record.{
  PostingArg, Claim, text as claim_text, receivable, revenue,
}
use financial_engineering_sk.Ledger.Commit.{CommitArgs}
use financial_engineering_sk.Store.Record.{Intent, Applied, authority_of, captured, state_beq}
use financial_engineering_sk.Store.{all_intents, commit_effect}
use financial_engineering_sk.SafeFlow.Worker.{Flow, on_store, on_processor, effect_id, bound}
use financial_engineering_sk.SafeFlow.Answers.{Captured, validated_charge}

-- authority.fields(), as the end of an economic claim
abbrev pub scope_claim : List String → List Claim
scope_claim [] = []
scope_claim (f ∷ fs) = claim_text f ∷ scope_claim fs

abbrev pub posting : String → String → ℤ → PostingArg
posting account currency amount = record {
  account = account;
  currency = str currency;
  amount_minor = int amount;
}

-- The entry of a capture.
unfoldable pub capture_args : AuthorityScope → Captured → Hook → CommitArgs
unfolding effect_id
capture_args authority c seam = record {
  effect_id = str (effect_id authority "capture" c.charge_id);
  claim =
      claim_text c.charge_id
      ∷ claim_text c.idempotency_key
      ∷ claim_text c.invoice_id
      ∷ Claim.number c.amount_minor
      ∷ claim_text c.currency
      ∷ scope_claim (fields authority);
  kind = "charge_captured";
  reference = str c.charge_id;
  postings =
      posting receivable c.currency c.amount_minor
      ∷ posting revenue c.currency (neg c.amount_minor)
      ∷ [];
  attribution = some (record {
    settlement_id = str "";
    charge_id = str c.charge_id;
    batch_id = str "";
    currency = str c.currency;
  });
  memo = text "invoice " ∷ text c.invoice_id ∷ text " captured" ∷ [];
  corrects = "";
  break_id = "";
  seam = seam;
  fault = absent;
}

-- charge["charge_id"]
abbrev pub charge_id_of : Value → Value
charge_id_of (dict d) = get "charge_id" d
charge_id_of _ = none_value

module _ {P : Type 0} (authority : AuthorityScope) where
  -- `_capture`
  unfoldable pub capture : Intent → Value → Hook → Hook → Exec (Flow P) Applied
  capture intent charge seam after_entry = do
    bound authority intent
    c ← lift (validated_charge authority charge intent)
    on_store (
        commit_effect (capture_args authority c seam)
          ((intent.key, record { state = captured; charge_id = c.charge_id }) ∷ []) after_entry)

  -- What a lookup answered for an intent: the charges posted for it, one or none.
  unfoldable pub recover_answer : Intent → Hook → Value → Exec (Flow P) (List Value)
  recover_answer intent seam none_value = pure []
  recover_answer intent seam charge = do
    a ← capture intent charge seam absent
    pure (if a.applied then charge_id_of charge ∷ [] else [])

  module _ (api : ProcessorApi P) where
    -- One round of `recover`.
    unfoldable pub recover_intent : Intent → Hook → Exec (Flow P) (List Value)
    recover_intent intent seam =
        if state_beq intent.state captured || not (authority_of intent == fields authority)
        then pure []
        else (do charge ← on_processor (api.lookup intent.key); recover_answer intent seam charge)

    unfoldable pub recover_all : List Intent → Hook → Exec (Flow P) (List Value)
    recover_all [] seam = pure []
    recover_all (intent ∷ intents) seam = do
      done ← recover_intent intent seam
      later ← recover_all intents seam
      pure (done ++ later)

    unfoldable pub recover : Hook → Exec (Flow P) (List Value)
    recover seam = do intents ← gets (λ (f : Flow P). all_intents f.store); recover_all intents seam
