-- ===== src/SafeFlow/Sending.antt =====
-- safe_flow.py, `pay_invoice` from its pinned intent on, over fake_processor.py: asking, sending,
-- resolving a lost answer, posting the capture.
use financial_engineering_sk.Prelude.{
  refl, List, [], ◌∷◌, Option, none, some, String, string_eq, list_eq, inl, Hook,
}
use financial_engineering_sk.Value.{Value, none_value}
use financial_engineering_sk.Money.{AuthorityScope}
use financial_engineering_sk.Processor.Interface.{ChargeRequest}
use financial_engineering_sk.Processor.Answers.{fake_api}
use financial_engineering_sk.Store.Record.{Intent, IntentUpdate, captured}
use financial_engineering_sk.Store.Effects.{commit_effect-keeps}
use financial_engineering_sk.SafeFlow.Answers.{validated_charge}
use financial_engineering_sk.SafeFlow.Capture.{capture, capture_args}
use financial_engineering_sk.SafeFlow.Pay.{
  PayHooks, resolve_answer, resolve, ask_if_known, send, resolve_or_give_up, send_if_unknown,
  finish,
}
use financial_engineering_sk.SafeFlow.Keeps.{
  Keeps, Keeps-lift, Keeps-pure, Keeps-then, Keeps-or_on_timeout, Keeps-gets, Anything, Keeps-hook,
  Keeps-lookup, IsUnder, Keeps-charge,
}
use financial_engineering_sk.SafeFlow.Opening.{Keeps-bound}

module _ (key : String) (authority : AuthorityScope) where
  Keeps-capture :
      (i : Intent) (charge : Value) (seam after_entry : Hook)
      → Keeps key (Anything key) (capture authority i charge seam after_entry)
  unfolding capture
  Keeps-capture i charge seam after_entry =
      Keeps-then key (Anything key) (Anything key) _ _ (Keeps-bound key authority i) λ _ _.
        Keeps-then key (Anything key) (Anything key) _ _
          (Keeps-lift key (Anything key) (validated_charge authority charge i) (λ a q. tt))
          λ c _ f g.
            let a = capture_args authority c seam in
            let u : List (String × IntentUpdate) =
              (i.key, record { state = captured; charge_id = c.charge_id }) ∷ [] in
            let k = commit_effect-keeps a u after_entry f.store g.ledger g.pins in
            record {
              good = record { ledger = k.0; pins = k.1 };
              charges = inl refl;
              answer = λ b q. tt;
            }

  pub Keeps-finish :
      (i : Intent) (hooks : PayHooks) (o : Option Value)
      → Keeps key (Anything key) (finish authority fake_api i hooks o)
  unfolding finish
  Keeps-finish i hooks none = Keeps-gets key (Anything key) _ (λ f g. tt)
  Keeps-finish i hooks (some charge) =
      Keeps-then key (Anything key) (Anything key) _ _ (Keeps-hook key hooks.fail_after_send) λ _ _.
        Keeps-then key (Anything key) (Anything key) _ _
          (Keeps-capture i charge hooks.seam hooks.after_entry)
          λ _ _. Keeps-gets key (Anything key) _ (λ f g. tt)

  pub Keeps-ask :
      (o : Option Intent) (k : String)
      → Keeps key (Anything key) (ask_if_known authority fake_api o k)
  unfolding ask_if_known
  Keeps-ask none k = Keeps-pure key (Anything key) none_value tt
  Keeps-ask (some i) k = Keeps-lookup key k

  module _ (req : ChargeRequest) (under : IsUnder key req) where
    Keeps-resolve_answer :
        (k : String) (v : Value)
        → Keeps key (Anything key) (resolve_answer authority fake_api k req v)
    unfolding resolve_answer
    Keeps-resolve_answer k none_value =
        Keeps-or_on_timeout key (Anything key) _ _ (Keeps-charge key req under) (Keeps-lookup key k)
    Keeps-resolve_answer k v = Keeps-pure key (Anything key) v tt

    Keeps-resolve :
        (k : String) → Keeps key (Anything key) (resolve_or_give_up authority fake_api k req)
    unfolding resolve_or_give_up resolve
    Keeps-resolve k =
        Keeps-then key (Anything key) (Anything key) _ _
          (Keeps-then key (Anything key) (Anything key) _ _ (Keeps-lookup key k)
            (λ v _. Keeps-resolve_answer k v))
          (λ v _. Keeps-pure key (Anything key) _ tt)

    Keeps-send : Keeps key (Anything key) (send authority fake_api req)
    unfolding send
    Keeps-send =
        Keeps-then key (Anything key) (Anything key) _ _ (Keeps-charge key req under)
          (λ v _. Keeps-pure key (Anything key) _ tt)

    pub Keeps-send_if_unknown :
        (k : String) (v : Value)
        → Keeps key (Anything key) (send_if_unknown authority fake_api k req v)
    unfolding send_if_unknown
    Keeps-send_if_unknown k none_value =
        Keeps-or_on_timeout key (Anything key) _ _ Keeps-send (Keeps-resolve k)
    Keeps-send_if_unknown k v = Keeps-pure key (Anything key) _ tt
