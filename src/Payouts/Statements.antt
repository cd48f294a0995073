-- ===== src/Payouts/Statements.antt =====
-- ledger.py: posting payouts, and the statements that were cut before.
use financial_engineering_sk.Prelude.{
  ℕ, suc, ◌+◌, ◌≤◌, ◌≡◌, refl, ◌∙◌, not, List, [], ◌∷◌, ◌++◌, String, string_eq, arith, Bool-cases,
  inl, inr,
}
use financial_engineering_sk.Ledger.Validate.{Totals, unbalanced_totals}
use financial_engineering_sk.Payouts.{
  PayoutArg, PayoutLeg, Journal, append_legs, post_group, post_payout, balance_as_of, is_nil,
  group_of, group_net,
}

module _ (account currency : String) (cut : ℕ) where
  -- A leg after the cut is not quoted.
  later_leg :
      (ls : List PayoutLeg) (l : PayoutLeg)
      → suc cut ≤ l.seq
      → balance_as_of account currency cut (ls ++ l ∷ []) ≡ balance_as_of account currency cut ls
  unfolding balance_as_of
  later_leg [] l h = ground arith
  later_leg (k ∷ ls) l h = rw (later_leg ls l h) refl

  append_legs-as_of :
      (txn_id memo : String) (legs : List PayoutArg) (j : Journal)
      → cut ≤ j.seq
      → balance_as_of account currency cut (append_legs txn_id memo legs j).legs
        ≡ balance_as_of account currency cut j.legs
  unfolding append_legs
  append_legs-as_of txn_id memo [] j h = refl
  append_legs-as_of txn_id memo (l ∷ ls) j h =
      let leg : PayoutLeg = record {
        seq = j.seq + 1;
        txn_id = txn_id;
        account = l.account;
        amount = l.amount;
        currency = l.currency;
        memo = memo;
      } in
      append_legs-as_of txn_id memo ls (record { legs = j.legs ++ leg ∷ []; seq = j.seq + 1 })
        (omega arith)
      ∙ later_leg j.legs leg (omega arith)

  post_group-as_of :
      (txn_id memo : String) (legs : List PayoutArg) (t : Totals) (j : Journal)
      → cut ≤ j.seq
      → balance_as_of account currency cut (post_group txn_id legs memo t j).1.legs
        ≡ balance_as_of account currency cut j.legs
  post_group-as_of txn_id memo legs [] j h = append_legs-as_of txn_id memo legs j h
  post_group-as_of txn_id memo legs (e ∷ t) j h = refl

  -- Posting a payout, accepted or refused, leaves what every statement quotes that was cut before.
  pub posting_keeps_statements :
      (txn_id memo : String) (legs : List PayoutArg) (j : Journal)
      → cut ≤ j.seq
      → balance_as_of account currency cut (post_payout txn_id legs memo j).1.legs
        ≡ balance_as_of account currency cut j.legs
  unfolding post_payout
  posting_keeps_statements txn_id memo legs j h =
      elim (Bool-cases (not (is_nil (group_of txn_id j.legs)))) [
        | inl e ↦ rw e refl
        | inr e ↦
            rw e (post_group-as_of txn_id memo legs (unbalanced_totals (group_net legs [])) j h)
      ]
