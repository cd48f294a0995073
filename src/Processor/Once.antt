-- ===== src/Processor/Once.antt =====
-- `FakeProcessor.charge`: one request that goes out more than once.
use financial_engineering_sk.Prelude.{
  ℕ, zero, suc, ◌≡◌, refl, sym, ap, ◌∙◌, [], ◌∷◌, none, some, String, arith, ◌==◌, string_eq,
  Result, ok, if◌then◌else◌, inl, inr, ◌⊎◌, err≢ok, ok-injective,
}
use financial_engineering_sk.Prelude.Dict.{Dict, lookup, insert, lookup-insert_self}
use financial_engineering_sk.Prelude.Int.{ℤ, pos, ◌+ℤ◌, +ℤ_assoc, +ℤ-zero, zero-+ℤ}
use financial_engineering_sk.Processor.Interface.{ChargeRequest}
use financial_engineering_sk.Processor.State.{Charge, FakeProcessor}
use financial_engineering_sk.Processor.{
  checked_request, new_charge, charge, total_charged, charged_total_minor,
}
use financial_engineering_sk.Processor.Charging.{
  Economic, Ended, lost, mismatched, found, created, charge_locked-Ended, charge_cases,
}

-- Nothing was recorded, or the key had no charge and has one now.
abbrev Grown : String → Economic → FakeProcessor → FakeProcessor → Type 0
Grown key economic p q =
    (q.charges ≡ p.charges)
    ⊎ ((o : FakeProcessor) × (lookup key p.charges ≡ none)
        × (q.charges ≡ insert key (new_charge key economic o) p.charges))

module _ (key : String) (economic : Economic) (p : FakeProcessor) where
  Ended-Grown :
      {r : Result Charge × FakeProcessor} → Ended key economic p r → Grown key economic p r.1
  Ended-Grown (lost q same) = inl same
  Ended-Grown (mismatched c q same e ne) = inl same
  Ended-Grown (found c q same e eq) = inl same
  Ended-Grown (created r o q missing grown answer) = inr (o, missing, grown)

  Ended-answer :
      {r : Result Charge × FakeProcessor} {c : Charge}
      → Ended key economic p r
      → r.0 ≡ ok c
      → (lookup key r.1.charges ≡ some c) × (c.economic_fields ≡ economic)
  Ended-answer (lost q same) h = absurd (err≢ok h)
  Ended-answer (mismatched c q same e ne) h = absurd (err≢ok h)
  Ended-answer (found d q same e eq) h = let d_path = ok-injective h in rw (same, ← d_path) (e, eq)
  Ended-answer (created r o q missing grown (inl answer)) h =
      let c_path = ok-injective (sym answer ∙ h) in
      rw (grown, ← c_path) (lookup-insert_self key _ p.charges, unfold new_charge in refl)
  Ended-answer (created r o q missing grown (inr dropped)) h = absurd (err≢ok (sym dropped ∙ h))

module _ (req : ChargeRequest) {key : String} {economic : Economic}
    (well_formed : checked_request req ≡ ok (key, economic)) where
  pub charge-Grown : (p : FakeProcessor) → Grown key economic p (charge req p).1
  charge-Grown p = elim (charge_cases req p well_formed) [
    | inl runs ↦ rw runs (Ended-Grown key economic p (charge_locked-Ended key economic p))
    | inr foreign ↦ rw foreign (inl refl)
  ]

-- One request sent `n` times, whatever each send answered.
unfoldable pub send_all : ℕ → ChargeRequest → FakeProcessor → FakeProcessor
send_all zero req p = p
send_all (suc n) req p = send_all n req (charge req p).1

total_charged-insert :
    (invoice_id key : String) (c : Charge) (d : Dict String Charge)
    → lookup key d ≡ none
    → total_charged invoice_id (insert key c d)
      ≡ total_charged invoice_id d +ℤ (if c.invoice_id == invoice_id then c.amount_minor else pos 0)
unfolding total_charged
total_charged-insert invoice_id key c [] h =
    ground (arith, +ℤ-zero c.amount_minor, zero-+ℤ c.amount_minor, zero-+ℤ (pos 0))
total_charged-insert invoice_id key c ((k, b) ∷ d) h = ground (
  arith,
  total_charged-insert invoice_id key c d,
  +ℤ_assoc b.amount_minor (total_charged invoice_id d)
      (if c.invoice_id == invoice_id then c.amount_minor else pos 0),
)

module _ (req : ChargeRequest) {key : String} {economic : Economic}
    (well_formed : checked_request req ≡ ok (key, economic)) where
  -- A key that has a charge never gets another.
  charge-recorded :
      (p : FakeProcessor) {c : Charge}
      → lookup key p.charges ≡ some c
      → (charge req p).1.charges ≡ p.charges
  charge-recorded p present = elim (charge-Grown req well_formed p) [
    | inl same ↦ same
    | inr grown ↦ absurd (missing≢present (sym grown.1 ∙ present))
  ]
    where
      missing≢present : {c : Charge} → none ≡ some c → ⊥
      missing≢present h = cc

  send_all-recorded :
      (n : ℕ) (p : FakeProcessor) {c : Charge}
      → lookup key p.charges ≡ some c
      → (send_all n req p).charges ≡ p.charges
  unfolding send_all
  send_all-recorded zero p present = refl
  send_all-recorded (suc n) p {c} present =
      let same = charge-recorded p present in
      send_all-recorded n (charge req p).1 {c = c} (rw same present) ∙ same

  send_all-Grown : (n : ℕ) (p : FakeProcessor) → Grown key economic p (send_all n req p)
  unfolding send_all
  send_all-Grown zero p = inl refl
  send_all-Grown (suc n) p = elim (charge-Grown req well_formed p) [
    | inl same ↦ elim (send_all-Grown n (charge req p).1) [
      | inl still ↦ inl (still ∙ same)
      | inr (o, missing, grown) ↦ inr (
        o,
        ap (lookup key) (sym same) ∙ missing,
        grown ∙ ap (insert key (new_charge key economic o)) same,
      )
    ]
    | inr (o, missing, grown) ↦ inr (
      o,
      missing,
      send_all-recorded n (charge req p).1 {c = new_charge key economic o}
            (rw grown (lookup-insert_self key _ p.charges))
          ∙ grown,
    )
  ]

-- However often one well-formed request is sent, and whichever of the answers are lost, the total
-- charged to an invoice either stays, or rises once by the amount of the request if it names the
-- invoice.
pub resending_charges_once :
    (req : ChargeRequest) (n : ℕ) (p : FakeProcessor) (key invoice_id currency : String)
    (amount : ℤ)
    → checked_request req ≡ ok (key, (invoice_id, (amount, currency)))
    → (invoice : String)
    → (charged_total_minor invoice (send_all n req p) ≡ charged_total_minor invoice p)
      ⊎ (charged_total_minor invoice (send_all n req p)
          ≡ charged_total_minor invoice p +ℤ (if invoice_id == invoice then amount else pos 0))
unfolding charged_total_minor
resending_charges_once req n p key invoice_id currency amount h invoice =
    elim (send_all-Grown req h n p) [
      | inl same ↦ inl (ap (total_charged invoice) same)
      | inr (o, missing, grown) ↦ inr (
          ap (total_charged invoice) grown
          ∙ total_charged-insert invoice key (new_charge key (invoice_id, (amount, currency)) o)
              p.charges missing
          ∙ unfold new_charge in refl)
    ]

-- A lookup that misses after a well-formed request, whatever the request answered, means that the
-- request recorded no charge.
pub lookup_miss_is_absence :
    (req : ChargeRequest) (p : FakeProcessor) (key : String) (economic : Economic)
    → checked_request req ≡ ok (key, economic)
    → lookup key (charge req p).1.charges ≡ none
    → (charge req p).1.charges ≡ p.charges
lookup_miss_is_absence req p key economic h miss = elim (charge-Grown req h p) [
  | inl same ↦ same
  | inr (o, missing, grown) ↦ absurd (
      present≢missing
        (sym (lookup-insert_self key _ p.charges) ∙ ap (lookup key) (sym grown) ∙ miss))
]
  where
    present≢missing : {c : Charge} → some c ≡ none → ⊥
    present≢missing h = cc

-- A charge that is answered carries the fields of the request, and is on file under its key.
pub answer_is_on_file :
    (req : ChargeRequest) (p : FakeProcessor) (key : String) (economic : Economic) (c : Charge)
    → checked_request req ≡ ok (key, economic)
    → (charge req p).0 ≡ ok c
    → (lookup key (charge req p).1.charges ≡ some c) × (c.economic_fields ≡ economic)
answer_is_on_file req p key economic c h answered = elim (charge_cases req p h) [
  | inl runs ↦ rw runs (
      Ended-answer key economic p (charge_locked-Ended key economic p)
        (ap (λ (r : Result Charge × FakeProcessor). r.0) (sym runs) ∙ answered))
  | inr foreign ↦
      absurd (err≢ok (ap (λ (r : Result Charge × FakeProcessor). r.0) (sym foreign) ∙ answered))
]
