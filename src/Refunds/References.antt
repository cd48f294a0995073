-- ===== src/Refunds/References.antt =====
-- processor.py, `Processor.refund`: a reference that is sent again.
use financial_engineering_sk.Prelude.{
  ◌+◌, ◌≡◌, refl, ap, ◌∙◌, List, [], ◌∷◌, ◌++◌, Option, none, some, String, string_eq, arith, ok,
  err≢ok, ok-injective, continue, eq_self,
}
use financial_engineering_sk.Prelude.Dict.{lookup, lookup-insert_self}
use financial_engineering_sk.Prelude.Int.{ℤ}
use financial_engineering_sk.Refunds.{
  Modification, Payment, RefundProcessor, payment_or_raise, find_modification, new_modification,
  refund_payment, refund,
}

find_modification-new :
    (reference : String) (ms : List Modification) (m : Modification)
    → m.reference ≡ reference
    → find_modification reference ms ≡ none
    → find_modification reference (ms ++ m ∷ []) ≡ some m
unfolding find_modification
find_modification-new reference [] m e h = rw (e, eq_self reference) refl
find_modification-new reference (k ∷ ms) m e h =
    ground (arith, find_modification-new reference ms m e)

-- The processor has this modification under this reference.
record IsKept (psp_reference reference : String) (m : Modification) (p : RefundProcessor)
    : Type 0 where
  payment : Payment
  held : lookup psp_reference p.payments ≡ some payment
  found : find_modification reference payment.modifications ≡ some m

module _ (psp_reference : String) (amount : ℤ) (reference : String) where
  payment-IsKept :
      (payment : Payment) (p : RefundProcessor) (o : Option Modification) (m : Modification)
      → lookup psp_reference p.payments ≡ some payment
      → find_modification reference payment.modifications ≡ o
      → (refund_payment psp_reference amount reference payment o p).0 ≡ ok m
      → IsKept psp_reference reference m
          (refund_payment psp_reference amount reference payment o p).1
  unfolding refund_payment new_modification
  payment-IsKept payment p (some k) m held found h = record {
    payment = payment;
    held = held;
    found = found ∙ ap some (ok-injective h);
  }
  payment-IsKept payment p none m held missing h =
      let k = new_modification (p.seq + 1) reference amount in
      let later : Payment = record payment { modifications = payment.modifications ++ k ∷ [] } in
      record {
        payment = later;
        held = lookup-insert_self psp_reference later p.payments;
        found =
            find_modification-new reference payment.modifications k refl missing
            ∙ ap some (ok-injective h);
      }

  refund-IsKept :
      (p : RefundProcessor) (m : Modification)
      → (refund psp_reference amount reference p).0 ≡ ok m
      → IsKept psp_reference reference m (refund psp_reference amount reference p).1
  unfolding refund
  refund-IsKept p m h = go (lookup psp_reference p.payments) refl h
    where
      go :
          (o : Option Payment)
          → lookup psp_reference p.payments ≡ o
          → (continue
              (payment_or_raise o)
              (λ payment.
                refund_payment psp_reference amount reference payment
                  (find_modification reference payment.modifications))
              p).0
            ≡ ok m
          → IsKept psp_reference reference m
              (continue
                (payment_or_raise o)
                (λ payment.
                  refund_payment psp_reference amount reference payment
                    (find_modification reference payment.modifications))
                p).1
      go none e q = absurd (err≢ok q)
      go (some payment) e q =
          payment-IsKept payment p (find_modification reference payment.modifications) m e refl q

-- A reference that was accepted is answered with its first modification when it is sent again, for
-- whatever amount, and nothing changes.
pub reference_is_refunded_once :
    (psp_reference reference : String) (amount another : ℤ) (p : RefundProcessor) (m : Modification)
    → (refund psp_reference amount reference p).0 ≡ ok m
    → let p' = (refund psp_reference amount reference p).1 in
      refund psp_reference another reference p' ≡ (ok m, p')
unfolding refund refund_payment
reference_is_refunded_once psp_reference reference amount another p m h =
    let k = refund-IsKept psp_reference amount reference p m h in rw (k.held, k.found) refl
