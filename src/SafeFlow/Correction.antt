-- ===== src/SafeFlow/Correction.antt =====
-- safe_flow.py, `apply_correction`: what a correction does to the figures of an identity.
use financial_engineering_sk.Prelude.{
  ◌≡◌, refl, sym, ◌∙◌, ap, Bool, true, false, List, [], ◌∷◌, ◌++◌, map, String, ◌==◌, string_eq,
  int_eq, if◌then◌else◌, Bool-cases, inl, inr, eq_sound, ok, sorted, by_key,
}
use financial_engineering_sk.Prelude.Int.{
  ℤ, pos, neg, ◌+ℤ◌, ◌-ℤ◌, int_laws, zero-+ℤ, +ℤ-zero, +ℤ_assoc,
}
use financial_engineering_sk.Prose.{Prose}
use financial_engineering_sk.Value.{Value, int}
use financial_engineering_sk.Ledger.Record.{
  Posting, PostingArg, cash, fees as fees_account, receivable, differences,
}
use financial_engineering_sk.Ledger.Validate.{validated}
use financial_engineering_sk.Ledger.Validate.Balanced.{as_arg, validated_iff}
use financial_engineering_sk.Reconcile.Break.{Break, delta}
use financial_engineering_sk.Reconcile.Rows.{Row, add_posting, add_postings}
use financial_engineering_sk.Reconcile.Lines.{Line}
use financial_engineering_sk.Reconcile.Figures.{deltas_of}
use financial_engineering_sk.Reconcile.Compare.{figures_break}
use financial_engineering_sk.SafeFlow.Correct.{
  correction_postings, moves, sum_values, move_postings, residue_postings,
}

-- The sum over one account.
account_total : String → List Posting → ℤ
account_total account [] = pos 0
account_total account (p ∷ ps) =
    let rest = account_total account ps in
    if p.account == account then p.amount_minor +ℤ rest else rest

abbrev arg_amount : Value → ℤ
arg_amount (int n) = n
arg_amount _ = pos 0

arg_total : String → List PostingArg → ℤ
arg_total account [] = pos 0
arg_total account (p ∷ ps) =
    let rest = arg_total account ps in
    if p.account == account then arg_amount p.amount_minor +ℤ rest else rest

move_total : String → List (String × ℤ) → ℤ
move_total account [] = pos 0
move_total account ((a, v) ∷ ms) =
    let rest = move_total account ms in if a == account then v +ℤ rest else rest

arg_total-as_arg :
    (account : String) (ps : List Posting)
    → arg_total account (map as_arg ps) ≡ account_total account ps
unfolding account_total arg_total
arg_total-as_arg account [] = refl
arg_total-as_arg account (p ∷ ps) = rw (arg_total-as_arg account ps) refl

arg_total-append :
    (account : String) (ps qs : List PostingArg)
    → arg_total account (ps ++ qs) ≡ arg_total account ps +ℤ arg_total account qs
unfolding arg_total
arg_total-append account [] qs = sym (zero-+ℤ (arg_total account qs))
arg_total-append account (p ∷ ps) qs = elim (Bool-cases (p.account == account)) [
  | inl e ↦
      rw
        (
          e,
          arg_total-append account ps qs,
          +ℤ_assoc (arg_amount p.amount_minor) (arg_total account ps) (arg_total account qs),
        )
        refl
  | inr e ↦ rw (e, arg_total-append account ps qs) refl
]

same_branch : (t : Bool) (a : ℤ) → a ≡ (if t then a else a)
same_branch true a = refl
same_branch false a = refl

arg_total-move_postings :
    (account : String) (c : Value) (ms : List (String × ℤ))
    → arg_total account (move_postings c ms) ≡ move_total account ms
unfolding arg_total move_total
arg_total-move_postings account c [] = refl
arg_total-move_postings account c ((a, v) ∷ ms) = elim (Bool-cases (v == pos 0)) [
  | inl e ↦
      rw
        (
          e,
          arg_total-move_postings account c ms,
          eq_sound v (pos 0) e,
          zero-+ℤ (move_total account ms),
        )
        (same_branch (a == account) (move_total account ms))
  | inr e ↦ rw (e, arg_total-move_postings account c ms) refl
]

arg_total-residue :
    (account : String) (c : Value) (v : ℤ)
    → (differences == account) ≡ false
    → arg_total account (residue_postings c v) ≡ pos 0
unfolding arg_total
arg_total-residue account c v other = elim (Bool-cases (v == pos 0)) [
  | inl e ↦ rw e refl
  | inr e ↦ rw (e, other) refl
]

arg_total-correction :
    (account : String) (b : Break)
    → (differences == account) ≡ false
    → arg_total account (correction_postings b) ≡ move_total account (sorted by_key (moves b))
unfolding correction_postings
arg_total-correction account b other =
    arg_total-append account (move_postings b.attribution.currency (sorted by_key (moves b)))
      (residue_postings b.attribution.currency (neg (sum_values (moves b))))
    ∙ rw
        (
          arg_total-move_postings account b.attribution.currency (sorted by_key (moves b)),
          arg_total-residue account b.attribution.currency (neg (sum_values (moves b))) other,
          +ℤ-zero (move_total account (sorted by_key (moves b))),
        )
        refl

cash_total : (b : Break) → arg_total cash (correction_postings b) ≡ neg (delta b "net")
unfolding move_total
cash_total b = arg_total-correction cash b refl ∙ +ℤ-zero (neg (delta b "net"))

fees_total : (b : Break) → arg_total fees_account (correction_postings b) ≡ neg (delta b "fee")
unfolding move_total
fees_total b = arg_total-correction fees_account b refl ∙ +ℤ-zero (neg (delta b "fee"))

receivable_total : (b : Break) → arg_total receivable (correction_postings b) ≡ delta b "gross"
unfolding move_total
receivable_total b = arg_total-correction receivable b refl ∙ +ℤ-zero (delta b "gross")

plus_branch :
    (t : Bool) (n a rest : ℤ)
    → (if t then n +ℤ a else n) +ℤ rest ≡ n +ℤ (if t then a +ℤ rest else rest)
plus_branch true n a rest = +ℤ_assoc n a rest
plus_branch false n a rest = refl

minus_branch :
    (t : Bool) (n a rest : ℤ)
    → (if t then n -ℤ a else n) -ℤ rest ≡ n -ℤ (if t then a +ℤ rest else rest)
minus_branch true n a rest = omega int_laws
minus_branch false n a rest = refl

-- The figures of a row after some postings.
net_after :
    (row : Row) (ps : List Posting) → (add_postings row ps).net ≡ row.net +ℤ account_total cash ps
unfolding account_total add_postings add_posting
net_after row [] = sym (+ℤ-zero row.net)
net_after row (p ∷ ps) =
    net_after (add_posting row p) ps
    ∙ plus_branch (p.account == cash) row.net p.amount_minor (account_total cash ps)

fee_after :
    (row : Row) (ps : List Posting)
    → (add_postings row ps).fee ≡ row.fee +ℤ account_total fees_account ps
unfolding account_total add_postings add_posting
fee_after row [] = sym (+ℤ-zero row.fee)
fee_after row (p ∷ ps) =
    fee_after (add_posting row p) ps
    ∙ plus_branch (p.account == fees_account) row.fee p.amount_minor (account_total fees_account ps)

gross_after :
    (row : Row) (ps : List Posting)
    → (add_postings row ps).gross ≡ row.gross -ℤ account_total receivable ps
unfolding account_total add_postings add_posting
gross_after row [] = omega int_laws
gross_after row (p ∷ ps) =
    gross_after (add_posting row p) ps
    ∙ minus_branch (p.account == receivable) row.gross p.amount_minor (account_total receivable ps)

-- The deltas of a break about amounts.
break_deltas :
    (id : String) (line : Line) (row : Row) (duplicated : Bool) (wrong : Prose)
    → let b = figures_break id line row duplicated wrong in
      (delta b "gross" ≡ row.gross -ℤ line.gross_minor)
      × ((delta b "fee" ≡ row.fee -ℤ line.fee_minor) × (delta b "net" ≡ row.net -ℤ line.net_minor))
unfolding delta figures_break deltas_of
break_deltas id line row duplicated wrong = (refl, (refl, refl))

plus_gap : (a b : ℤ) → a +ℤ neg (a -ℤ b) ≡ b
plus_gap a b = omega int_laws

minus_gap : (a b : ℤ) → a -ℤ (a -ℤ b) ≡ b
minus_gap a b = omega int_laws

-- What the ledger posts for the correction of a break about amounts leaves the row with the
-- figures of the report's line.
pub correction_meets_the_report :
    (id : String) (line : Line) (row : Row) (duplicated : Bool) (wrong : Prose) (ps : List Posting)
    → validated (correction_postings (figures_break id line row duplicated wrong)) ≡ ok ps
    → ((add_postings row ps).gross ≡ line.gross_minor)
      × (((add_postings row ps).fee ≡ line.fee_minor)
          × ((add_postings row ps).net ≡ line.net_minor))
correction_meets_the_report id line row duplicated wrong ps h =
    let b = figures_break id line row duplicated wrong in
    let same : correction_postings b ≡ map as_arg ps =
      ((validated_iff (correction_postings b) ps).0 h).0 in
    let d = break_deltas id line row duplicated wrong in
    let of : (account : String)
        → account_total account ps ≡ arg_total account (correction_postings b) =
      λ account. sym (ap (arg_total account) same ∙ arg_total-as_arg account ps) in
    (
      rw (gross_after row ps, of receivable, receivable_total b, d.0)
          (minus_gap row.gross line.gross_minor),
      (
        rw (fee_after row ps, of fees_account, fees_total b, d.1.0)
            (plus_gap row.fee line.fee_minor),
        rw (net_after row ps, of cash, cash_total b, d.1.1) (plus_gap row.net line.net_minor),
      ),
    )
