-- ===== src/SafeFlow/Opening.antt =====
-- safe_flow.py, `pay_invoice` up to its pinned intent, over fake_processor.py.
use financial_engineering_sk.Prelude.{
  ◌≡◌, refl, sym, ◌∙◌, subst, Option, none, some, String, ◌==◌, string_eq, list_eq, inl, inr,
  Result, ok, err, ok-injective, err≢ok, Bool-cases, and_then-eq-ok, ok-first,
}
use financial_engineering_sk.Prelude.Int.{ℤ}
use financial_engineering_sk.Prelude.Dict.{lookup, lookup-All}
use financial_engineering_sk.Value.{Value, int, str}
use financial_engineering_sk.Money.{
  AuthorityScope, fields, validated_amount, validated_currency, validated_identifier,
}
use financial_engineering_sk.Money.Checks.{validated_identifier_iff}
use financial_engineering_sk.Processor.Interface.{ChargeRequest}
use financial_engineering_sk.Processor.Answers.{fake_api}
use financial_engineering_sk.Processor.{checked_request}
use financial_engineering_sk.Store.Record.{Intent, authority_of, pinned, Store}
use financial_engineering_sk.Store.{get_intent, open_intent, checked_intent}
use financial_engineering_sk.Store.Intents.{
  Opened, refused, held, opened, open_intent_refused, open_intent-Opened,
}
use financial_engineering_sk.Store.Authority.{
  HasOneAuthority, IsPinned, open_intent-HasOneAuthority,
}
use financial_engineering_sk.SafeFlow.Worker.{
  on_store, request_or_raise, request_of, stored_request, bound,
}
use financial_engineering_sk.SafeFlow.Pay.{bound_if_known}
use financial_engineering_sk.SafeFlow.Keeps.{Keeps, Keeps-pure, Anything, IsUnder}

str-injective : {s t : String} → str s ≡ str t → s ≡ t
str-injective h = cc

-- An intent on file is filed under its key.
filed :
    (key : String) (s : Store) {i : Intent}
    → HasOneAuthority s
    → lookup key s.intents ≡ some i
    → i.key ≡ key
filed key s {i} h found = (lookup-All (IsPinned s.authority) key i s.intents h.pins found).0

request_of-IsUnder : (key : String) (i : Intent) → i.key ≡ key → IsUnder key (request_of i)
unfolding checked_request
request_of-IsUnder key i same k e h =
    let (k', read, rest) = and_then-eq-ok (validated_identifier (str i.key)) _ h in
    let (i', read_i, rest_i) = and_then-eq-ok (validated_identifier (str i.invoice_id)) _ rest in
    let (n, read_n, rest_n) = and_then-eq-ok (validated_amount (int i.amount_minor)) _ rest_i in
    let (c, read_c, rest_c) = and_then-eq-ok (validated_currency (str i.currency)) _ rest_n in
    sym (ok-first rest_c)
    ∙ (sym (str-injective ((validated_identifier_iff (str i.key) k').0 read).0) ∙ same)

module _ (key : String) (authority : AuthorityScope) where
  pub Keeps-stored_request : Keeps key (IsUnder key) (stored_request key)
  unfolding stored_request get_intent
  Keeps-stored_request f g = record {
    good = g;
    charges = inl refl;
    answer = λ a h. go (lookup key f.store.intents) refl a h;
  }
    where
      go :
          (o : Option Intent)
          → lookup key f.store.intents ≡ o
          → (a : ChargeRequest) → request_or_raise o ≡ ok a
          → IsUnder key a
      go none e a h = absurd (err≢ok h)
      go (some i) e a h =
          subst (IsUnder key) (ok-injective h)
            (request_of-IsUnder key i (filed key f.store g.pins e))

  pub Keeps-bound : (i : Intent) → Keeps key (Anything key) (bound authority i)
  unfolding bound
  Keeps-bound i f g = elim (Bool-cases (authority_of i == fields authority)) [
    | inl e ↦ rw e (record { good = g; charges = inl refl; answer = λ a q. tt })
    | inr e ↦ rw e (record { good = g; charges = inl refl; answer = λ a q. tt })
  ]

  pub Keeps-bound_if_known :
      (o : Option Intent) → Keeps key (Anything key) (bound_if_known authority fake_api o)
  unfolding bound_if_known
  Keeps-bound_if_known none = Keeps-pure key (Anything key) tt tt
  Keeps-bound_if_known (some i) = Keeps-bound i

  Opened-facts :
      (wanted : Intent) (s : Store) {r : Result Intent × Store}
      → wanted.key ≡ key
      → HasOneAuthority s
      → Opened wanted s r
      → (r.1.ledger ≡ s.ledger) × ((a : Intent) → r.0 ≡ ok a → a.key ≡ key)
  Opened-facts wanted s same h (refused e) = (refl, λ a q. absurd (err≢ok q))
  Opened-facts wanted s same h (held i found alike) = (
    refl,
    λ a q. subst (λ (j : Intent). j.key ≡ key) (ok-injective q) (filed wanted.key s h found ∙ same),
  )
  Opened-facts wanted s same h (opened missing free) =
      (refl, λ a q. subst (λ (j : Intent). j.key ≡ key) (ok-injective q) same)

  checked_key :
      (invoice : Value) (k i : String)
      → checked_intent (str key) invoice authority ≡ ok (k, i)
      → k ≡ key
  unfolding checked_intent
  checked_key invoice k i h =
      let (k', read, rest) = and_then-eq-ok (validated_identifier (str key)) _ h in
      let (i', read_i, rest_i) = and_then-eq-ok (validated_identifier invoice) _ rest in
      let (p, read_p, rest_p) =
        and_then-eq-ok (validated_identifier (str authority.provider)) _ rest_i in
      let (a, read_a, rest_a) =
        and_then-eq-ok (validated_identifier (str authority.account)) _ rest_p in
      let (r, read_r, rest_r) =
        and_then-eq-ok (validated_identifier (str authority.region)) _ rest_a in
      let (b, read_b, rest_b) =
        and_then-eq-ok (validated_identifier (str authority.backend_id)) _ rest_r in
      sym (ok-first rest_b) ∙ sym (str-injective ((validated_identifier_iff (str key) k').0 read).0)

  open_intent-facts :
      (invoice : Value) (amount : ℤ) (currency : String) (s : Store)
      → HasOneAuthority s
      → let (r, s') = open_intent (str key) invoice amount currency authority s in
        (s'.ledger ≡ s.ledger) × ((a : Intent) → r ≡ ok a → a.key ≡ key)
  open_intent-facts invoice amount currency s h =
      go (checked_intent (str key) invoice authority) refl
    where
      go :
          (c : Result (String × String))
          → checked_intent (str key) invoice authority ≡ c
          → let (r, s') = open_intent (str key) invoice amount currency authority s in
            (s'.ledger ≡ s.ledger) × ((a : Intent) → r ≡ ok a → a.key ≡ key)
      go (err e) q =
          rw (open_intent_refused (str key) invoice amount currency authority s q)
            (refl, λ a p. absurd (err≢ok p))
      go (ok (k, i)) q =
          Opened-facts (pinned k i amount currency authority) s (checked_key invoice k i q) h
            (open_intent-Opened (str key) invoice amount currency authority s q)

  pub Keeps-open :
      (invoice : Value) (amount : ℤ) (currency : String)
      → Keeps key
          (λ (i : Intent). i.key ≡ key)
          (on_store (open_intent (str key) invoice amount currency authority))
  Keeps-open invoice amount currency f g =
      let facts = open_intent-facts invoice amount currency f.store g.pins in
      record {
        good = record {
          ledger = rw facts.0 g.ledger;
          pins =
              open_intent-HasOneAuthority (str key) invoice amount currency authority f.store
                g.pins;
        };
        charges = inl refl;
        answer = facts.1;
      }
