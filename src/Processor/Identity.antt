-- ===== src/Processor/Identity.antt =====
-- `_next_backend_id`: the identities of backends.
use financial_engineering_sk.Prelude.{ℕ, ◌+◌, ◌≤◌, ◌≢◌, ap, List, ◌∷◌, String, arith}
use text.Mathlib.TextLemmas.{append_cancel_left}
use financial_engineering_sk.Prelude.Decimal.{decimal, decimal_injective}
use financial_engineering_sk.Money.{AuthorityScope, fields}
use financial_engineering_sk.Processor.State.{new_processor}

fourth : List String → String
fourth (_ ∷ _ ∷ _ ∷ s ∷ _) = s
fourth _ = ""

-- Of two processors, made one after the other with any number of constructions between, the scopes
-- differ, whatever labels and identities were handed in.
pub scopes_differ :
    (a b : AuthorityScope) (ambiguous lossy ambiguous' lossy' : List String) (m n : ℕ)
    → (new_processor a ambiguous lossy m).1 ≤ n
    → fields (new_processor a ambiguous lossy m).0.scope
      ≢ fields (new_processor b ambiguous' lossy' n).0.scope
unfolding new_processor fourth
scopes_differ a b ambiguous lossy ambiguous' lossy' m n h e =
    let same =
      decimal_injective (m + 1) (n + 1)
        (append_cancel_left "be" (decimal (m + 1)) (decimal (n + 1)) (ap fourth e)) in
    absurd (omega arith)
