-- ===== src/SafeFlow/Pay.antt =====
-- safe_flow.py: paying an invoice. Validate, pin, ask, then send.
use financial_engineering_sk.Prelude.{
  Option, none, some, String, if◌then◌else◌, ok, Exec, pure, lift, gets, ◌>>=◌, ◌>>◌, Hook,
  run_hook,
}
use financial_engineering_sk.Value.{Value, none_value, str}
use financial_engineering_sk.Money.{AuthorityScope, validated_amount, validated_currency}
use financial_engineering_sk.Processor.Interface.{ChargeRequest, ProcessorApi}
use financial_engineering_sk.Store.Record.{Intent, state_beq, captured}
use financial_engineering_sk.Store.{get_intent, open_intent}
use financial_engineering_sk.SafeFlow.Worker.{
  Flow, on_store, on_processor, or_on_timeout, intent_key, stored_request, bound,
}
use financial_engineering_sk.SafeFlow.Capture.{capture}

-- The hooks of `pay_invoice`.
pub record PayHooks : Type 0 where
  pub fail_after_send : Hook
  pub seam : Hook
  pub after_entry : Hook

module _ {P : Type 0} (authority : AuthorityScope) (api : ProcessorApi P) where
  -- if known is not None: self._bound(known)
  unfoldable pub bound_if_known : Option Intent → Exec (Flow P) Unit
  bound_if_known none = pure tt
  bound_if_known (some intent) = bound authority intent

  -- `_resolve` after its first lookup: a charge is the answer, a miss allows the replay.
  unfoldable pub resolve_answer : String → ChargeRequest → Value → Exec (Flow P) Value
  resolve_answer key request none_value f =
      or_on_timeout (on_processor (api.lookup key)) (on_processor (api.charge request) f)
  resolve_answer key request charge f = (ok charge, f)

  unfoldable pub resolve : String → ChargeRequest → Exec (Flow P) Value
  resolve key request = do charge ← on_processor (api.lookup key); resolve_answer key request charge

  -- An intent that was on file is asked about before anything goes out.
  unfoldable pub ask_if_known : Option Intent → String → Exec (Flow P) Value
  ask_if_known none key = pure none_value
  ask_if_known (some intent) key = on_processor (api.lookup key)

  unfoldable pub send : ChargeRequest → Exec (Flow P) (Option Value)
  send request = do charge ← on_processor (api.charge request); pure (some charge)

  -- What `_resolve` found, if anything.
  abbrev if_resolved : Value → Option Value
  if_resolved none_value = none
  if_resolved charge = some charge

  unfoldable pub resolve_or_give_up : String → ChargeRequest → Exec (Flow P) (Option Value)
  resolve_or_give_up key request = do charge ← resolve key request; pure (if_resolved charge)

  -- try: charge(request) / except AmbiguousTimeout: _resolve(request)
  unfoldable pub send_if_unknown : String → ChargeRequest → Value → Exec (Flow P) (Option Value)
  send_if_unknown key request none_value f =
      or_on_timeout (resolve_or_give_up key request) (send request f)
  send_if_unknown key request charge f = (ok (some charge), f)

  -- With an answer the capture is posted; unresolved, the intent stays pending.
  unfoldable pub finish : Intent → PayHooks → Option Value → Exec (Flow P) (Option Intent)
  finish intent hooks none = gets (λ (f : Flow P). get_intent intent.key f.store)
  finish intent hooks (some charge) = do
    run_hook hooks.fail_after_send
    capture authority intent charge hooks.seam hooks.after_entry
    gets (λ (f : Flow P). get_intent intent.key f.store)

  unfoldable pub pay_pending : Option Intent → Intent → PayHooks → Exec (Flow P) (Option Intent)
  pay_pending known intent hooks = do
    request ← stored_request intent.key
    asked ← ask_if_known known intent.key
    charge ← send_if_unknown intent.key request asked
    finish intent hooks charge

  unfoldable pub pay_opened : Option Intent → Intent → PayHooks → Exec (Flow P) (Option Intent)
  pay_opened known intent hooks =
      if state_beq intent.state captured then pure (some intent) else pay_pending known intent hooks

  unfoldable pub pay_invoice : String → Value → Value → PayHooks → Exec (Flow P) (Option Intent)
  pay_invoice invoice_id amount_minor currency hooks = do
    amount ← lift (validated_amount amount_minor)
    code ← lift (validated_currency currency)
    known ← gets (λ (f : Flow P). get_intent (intent_key invoice_id) f.store)
    bound_if_known known
    intent ←
        on_store (open_intent (str (intent_key invoice_id)) (str invoice_id) amount code authority)
    pay_opened known intent hooks
