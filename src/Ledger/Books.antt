-- ===== src/Ledger/Books.antt =====
-- `balance` and `trial_balance`: what calls do to them.
use financial_engineering_sk.Prelude.{
  ◌≡◌, refl, sym, ap, ◌∙◌, Bool, ◌&&◌, List, [], ◌∷◌, ◌++◌, String, Option, arith, string_eq,
  Result, ok, ok-first, ok-second, err≢ok, All, All-sorted, by_key, if◌then◌else◌,
}
use financial_engineering_sk.Prelude.Dict.{UniqueKeys, insert-UniqueKeys}
use financial_engineering_sk.Prelude.Int.{ℤ, pos, ◌+ℤ◌, +ℤ_assoc, zero-+ℤ, +ℤ-zero}
use financial_engineering_sk.Ledger.Record.{Posting, Entry, Ledger, empty_ledger}
use financial_engineering_sk.Ledger.Queries.{
  posting_total, balance, balance_of, add_postings, add_entries, trial_balance, selects,
}
use financial_engineering_sk.Ledger.Validate.{Totals, add_total}
use financial_engineering_sk.Ledger.Validate.Totals.{
  currency_total, total_of, total_of-add_total, every_total_is_zero,
}
use financial_engineering_sk.Ledger.Commit.{CommitArgs, commit_once, new_entry}
use financial_engineering_sk.Ledger.Commit.Outcomes.{
  Ended, refused, found, appended, commit_once-Ended,
}
use financial_engineering_sk.Ledger.Commit.Invariant.{IsEntry, IsValid}
use financial_engineering_sk.Ledger.History.{replay, replay-IsValid, empty_ledger-IsValid}

module _ (c : String) where
  add_postings-total :
      (ps : List Posting) (t : Totals)
      → total_of c (add_postings ps t) ≡ total_of c t +ℤ currency_total c ps
  unfolding add_postings
  add_postings-total [] t = sym (+ℤ-zero (total_of c t))
  add_postings-total (p ∷ ps) t = ground (
    arith,
    add_postings-total ps (add_total p.currency p.amount_minor t),
    total_of-add_total c p.currency p.amount_minor t,
    +ℤ_assoc (total_of c t) p.amount_minor (currency_total c ps),
  )

  add_entries-total :
      (es : List Entry) (t : Totals) → All IsEntry es → total_of c (add_entries es t) ≡ total_of c t
  unfolding add_entries
  add_entries-total [] t h = refl
  add_entries-total (e ∷ es) t h =
      add_entries-total es (add_postings e.postings t) h.1
      ∙ add_postings-total e.postings t
      ∙ ap (λ (n : ℤ). total_of c t +ℤ n) (h.0.postings.balanced c)
      ∙ +ℤ-zero (total_of c t)

add_postings-UniqueKeys :
    (ps : List Posting) (t : Totals) → UniqueKeys t → UniqueKeys (add_postings ps t)
unfolding add_postings
add_postings-UniqueKeys [] t u = u
add_postings-UniqueKeys (p ∷ ps) t u =
    add_postings-UniqueKeys ps (add_total p.currency p.amount_minor t)
      (insert-UniqueKeys p.currency _ t u)

add_entries-UniqueKeys :
    (es : List Entry) (t : Totals) → UniqueKeys t → UniqueKeys (add_entries es t)
unfolding add_entries
add_entries-UniqueKeys [] t u = u
add_entries-UniqueKeys (e ∷ es) t u =
    add_entries-UniqueKeys es (add_postings e.postings t) (add_postings-UniqueKeys e.postings t u)

trial_balance-zero :
    (l : Ledger) → IsValid l → All (λ (t : String × ℤ). t.1 ≡ pos 0) (trial_balance l)
unfolding trial_balance
trial_balance-zero l v =
    All-sorted (λ (t : String × ℤ). t.1 ≡ pos 0) by_key (add_entries l.entries [])
      (every_total_is_zero (add_entries l.entries []) (add_entries-UniqueKeys l.entries [] tt)
        (λ c. add_entries-total c l.entries [] v.entries))

-- Whatever calls a new ledger has had, accepted or refused, its trial balance is zero in every
-- currency.
pub trial_balance_is_zero :
    (calls : List CommitArgs)
    → All (λ (t : String × ℤ). t.1 ≡ pos 0) (trial_balance (replay calls empty_ledger))
trial_balance_is_zero calls =
    trial_balance-zero (replay calls empty_ledger)
      (replay-IsValid calls empty_ledger empty_ledger-IsValid)

balance_of-append :
    (account currency : String) (reference : Option String) (es : List Entry) (e : Entry)
    → balance_of account currency reference (es ++ e ∷ [])
      ≡ balance_of account currency reference es
        +ℤ (if selects reference e then posting_total account currency e.postings else pos 0)
unfolding balance_of
balance_of-append account currency reference [] e = ground (
  arith,
  +ℤ-zero (posting_total account currency e.postings),
  zero-+ℤ (posting_total account currency e.postings),
  zero-+ℤ (pos 0),
)
balance_of-append account currency reference (d ∷ es) e = ground (
  arith,
  balance_of-append account currency reference es e,
  +ℤ_assoc (posting_total account currency d.postings) (balance_of account currency reference es)
      (if selects reference e then posting_total account currency e.postings else pos 0),
)

-- A call that applied its effect moves the balance of every account, in every currency and for
-- every reference that names its entry, by that entry's postings; a call that did not, by nothing.
pub commit_once-balance :
    (a : CommitArgs) (l : Ledger) (e : Entry) (applied : Bool) (account currency : String)
    (reference : Option String)
    → (commit_once a l).0 ≡ ok (e, applied)
    → balance account currency reference (commit_once a l).1
      ≡ balance account currency reference l
        +ℤ (if applied && selects reference e
            then posting_total account currency e.postings
            else pos 0)
unfolding balance
commit_once-balance a l e applied account currency reference h = go (commit_once-Ended a l) h
  where
    go :
        {r : Result (Entry × Bool) × Ledger}
        → Ended a l r
        → r.0 ≡ ok (e, applied)
        → balance_of account currency reference r.1.entries
          ≡ balance_of account currency reference l.entries
            +ℤ (if applied && selects reference e
                then posting_total account currency e.postings
                else pos 0)
    go (refused d) q = absurd (err≢ok q)
    go (found x f d p m s) q =
        rw (sym (ok-second q)) (sym (+ℤ-zero (balance_of account currency reference l.entries)))
    go (appended x f p m) q =
        rw (sym (ok-second q), sym (ok-first q))
          (balance_of-append account currency reference l.entries (new_entry a x f l))
