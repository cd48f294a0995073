-- ===== src/Ledger/Validate/Balanced.antt =====
-- `Ledger._validated` accepts exactly the posting sets that are well formed and sum to zero in
-- each currency.
use financial_engineering_sk.Prelude.{
  ◌≡◌, ◌≢◌, ◌↔◌, refl, subst, sym, ap, ◌∙◌, List, [], ◌∷◌, map, String, arith, string_eq, int_eq,
  ok, and_then-eq-ok, ok-injective, ok-first, ok-second, sorted, by_key, All, All-sorted,
  All-unsorted,
}
use financial_engineering_sk.Prelude.Dict.{UniqueKeys, insert-UniqueKeys}
use financial_engineering_sk.Prelude.Int.{ℤ, pos, ◌+ℤ◌, int_laws, +ℤ_assoc, zero-+ℤ}
use financial_engineering_sk.Value.{Value, int, str}
use financial_engineering_sk.Money.{validated_currency}
use financial_engineering_sk.Money.Checks.{IsCurrency, validated_currency_iff}
use financial_engineering_sk.Ledger.Record.{Posting, PostingArg}
use financial_engineering_sk.Ledger.Validate.Totals.{
  currency_total, IsBalanced, total_of, total_of-add_total, total_of_zero, every_total_is_zero,
  nothing_kept, zeros_are_dropped,
}
use financial_engineering_sk.Ledger.Validate.{
  Totals, add_total, integer_amount, validated_posting, validated_loop, unbalanced_totals,
  refuse_unbalanced, validated,
}

-- A posting as an argument.
abbrev pub as_arg : Posting → PostingArg
as_arg p = record {
  account = p.account;
  currency = str p.currency;
  amount_minor = int p.amount_minor;
}

integer_amount_iff : (v : Value) (n : ℤ) → (integer_amount v ≡ ok n) ↔ (v ≡ int n)
integer_amount_iff (int m) n = (λ h. cc, λ h. cc)
integer_amount_iff v n = (λ h. cc, λ h. cc)

posting_back :
    (p : PostingArg) (q : Posting)
    → p ≡ as_arg q
    → IsCurrency q.currency
    → validated_posting p ≡ ok q
unfolding validated_posting
posting_back p q e c =
    rw e (rw ((validated_currency_iff (str q.currency) q.currency).1 (refl, c)) refl)

posting_forth :
    (p : PostingArg) (q : Posting)
    → validated_posting p ≡ ok q
    → (p ≡ as_arg q) × IsCurrency q.currency
unfolding validated_posting
posting_forth p q h =
    let (n, is_int, rest) = and_then-eq-ok (integer_amount p.amount_minor) _ h in
    let (c, is_code, made) = and_then-eq-ok (validated_currency p.currency) _ rest in
    ground (
      arith,
      made,
      (integer_amount_iff p.amount_minor n).0 is_int,
      (validated_currency_iff p.currency c).0 is_code,
    )

-- A posting that passes is the argument itself, with a currency that is a code.
validated_posting_iff :
    (p : PostingArg) (q : Posting)
    → (validated_posting p ≡ ok q) ↔ ((p ≡ as_arg q) × IsCurrency q.currency)
unfolding validated_posting
validated_posting_iff p q = (λ h. posting_forth p q h, λ h. posting_back p q h.0 h.1)

module _ (c : String) where
  validated_loop-total :
      (ps : List PostingArg) (t t' : Totals) (qs : List Posting)
      → validated_loop ps t ≡ ok (qs, t')
      → total_of c t' ≡ total_of c t +ℤ currency_total c qs
  unfolding validated_loop
  validated_loop-total [] t t' qs h = grind int_laws
  validated_loop-total (p ∷ ps) t t' qs h =
      let (q, passed, rest) = and_then-eq-ok (validated_posting p) _ h in
      let (r, looped, made) =
        and_then-eq-ok (validated_loop ps (add_total q.currency q.amount_minor t)) _ rest in
      ground (
        arith,
        made,
        validated_loop-total ps (add_total q.currency q.amount_minor t) r.1 r.0 looped,
        total_of-add_total c q.currency q.amount_minor t,
        +ℤ_assoc (total_of c t) q.amount_minor (currency_total c r.0),
      )

validated_loop-UniqueKeys :
    (ps : List PostingArg) (t t' : Totals) (qs : List Posting)
    → UniqueKeys t
    → validated_loop ps t ≡ ok (qs, t')
    → UniqueKeys t'
unfolding validated_loop
validated_loop-UniqueKeys [] t t' qs u h = subst UniqueKeys (ok-second h) u
validated_loop-UniqueKeys (p ∷ ps) t t' qs u h =
    let (q, passed, rest) = and_then-eq-ok (validated_posting p) _ h in
    let (r, looped, made) =
      and_then-eq-ok (validated_loop ps (add_total q.currency q.amount_minor t)) _ rest in
    subst UniqueKeys (ok-second made) (
      validated_loop-UniqueKeys ps (add_total q.currency q.amount_minor t) r.1 r.0
        (insert-UniqueKeys q.currency _ t u) looped)

-- Well formed: the postings' currencies are codes, and they sum to zero in each.
pub record IsPostingSet (qs : List Posting) : Type 0 where
  pub some_posting : qs ≢ []
  pub currencies : All (λ (q : Posting). IsCurrency q.currency) qs
  pub balanced : IsBalanced qs

-- The postings are the arguments, read at their types.
abbrev Reads : List PostingArg → List Posting → Type 0
Reads ps qs = (ps ≡ map as_arg qs) × All (λ (q : Posting). IsCurrency q.currency) qs

validated_loop-Reads :
    (ps : List PostingArg) (t t' : Totals) (qs : List Posting)
    → validated_loop ps t ≡ ok (qs, t')
    → Reads ps qs
unfolding validated_loop
validated_loop-Reads [] t t' qs h = subst (Reads []) (ok-first h) (refl, tt)
validated_loop-Reads (p ∷ ps) t t' qs h =
    let (q, passed, rest) = and_then-eq-ok (validated_posting p) _ h in
    let (r, looped, made) =
      and_then-eq-ok (validated_loop ps (add_total q.currency q.amount_minor t)) _ rest in
    let tail : Reads ps r.0 =
      validated_loop-Reads ps (add_total q.currency q.amount_minor t) r.1 r.0 looped in
    let head = (validated_posting_iff p q).0 passed in
    subst (Reads (p ∷ ps)) (ok-first made) (cc (head.0, tail.0), (head.1, tail.1))

loop_totals : List Posting → Totals → Totals
loop_totals [] t = t
loop_totals (q ∷ qs) t = loop_totals qs (add_total q.currency q.amount_minor t)

validated_loop-map :
    (qs : List Posting) (t : Totals)
    → All (λ (q : Posting). IsCurrency q.currency) qs
    → validated_loop (map as_arg qs) t ≡ ok (qs, loop_totals qs t)
unfolding validated_loop loop_totals
validated_loop-map [] t h = refl
validated_loop-map (q ∷ qs) t h = rw (
  (validated_posting_iff (as_arg q) q).1 (refl, h.0),
  validated_loop-map qs (add_total q.currency q.amount_minor t) h.1,
)

-- With no unbalanced total, and only then, the postings of the loop sum to zero everywhere.
unbalanced_totals_iff :
    (ps : List PostingArg) (qs : List Posting) (t : Totals)
    → validated_loop ps [] ≡ ok (qs, t)
    → (unbalanced_totals t ≡ []) ↔ IsBalanced qs
unbalanced_totals_iff ps qs t h = (
  λ none_left c.
      currency_total-total c
      ∙ total_of_zero c t (
          All-unsorted (λ (e : String × ℤ). e.1 ≡ pos 0) by_key t
            (nothing_kept (sorted by_key t) none_left)),
  λ balanced. zeros_are_dropped (sorted by_key t) (
      All-sorted (λ (e : String × ℤ). e.1 ≡ pos 0) by_key t
        (every_total_is_zero t (validated_loop-UniqueKeys ps [] t qs tt h)
          (λ c. sym (currency_total-total c) ∙ balanced c))),
)
  where
    currency_total-total : (c : String) → currency_total c qs ≡ total_of c t
    currency_total-total c =
        sym (zero-+ℤ (currency_total c qs)) ∙ sym (validated_loop-total c ps [] t qs h)

refuse_unbalanced-eq-ok :
    (ps qs : List Posting) (t : Totals) → refuse_unbalanced ps t ≡ ok qs → (t ≡ []) × (ps ≡ qs)
refuse_unbalanced-eq-ok ps qs [] h = (refl, ok-injective h)
refuse_unbalanced-eq-ok ps qs (e ∷ t) h = cc

validated-map : (qs : List Posting) → IsPostingSet qs → validated (map as_arg qs) ≡ ok qs
unfolding validated
validated-map [] h = absurd (h.some_posting refl)
validated-map (q ∷ qs) h =
    let looped = validated_loop-map (q ∷ qs) [] h.currencies in
    rw looped
      (rw ((unbalanced_totals_iff (as_arg q ∷ map as_arg qs) (q ∷ qs) _ looped).1 h.balanced) refl)

validated-IsPostingSet :
    (ps : List PostingArg) (qs : List Posting)
    → validated ps ≡ ok qs
    → (ps ≡ map as_arg qs) × IsPostingSet qs
unfolding validated
validated-IsPostingSet [] qs h = cc
validated-IsPostingSet (p ∷ ps) qs h =
    let (r, looped, passed) = and_then-eq-ok (validated_loop (p ∷ ps) []) _ h in
    let (level, same) = refuse_unbalanced-eq-ok r.0 qs (unbalanced_totals r.1) passed in
    let reads : Reads (p ∷ ps) r.0 = validated_loop-Reads (p ∷ ps) [] r.1 r.0 looped in
    subst (λ (l : List Posting). (p ∷ ps ≡ map as_arg l) × IsPostingSet l) same
      (
        reads.0,
        record {
          some_posting = λ e. cc (reads.0, ap (map as_arg) e);
          currencies = reads.1;
          balanced = (unbalanced_totals_iff (p ∷ ps) r.0 r.1 looped).0 level;
        },
      )

-- A posting set is accepted exactly if it is not empty, each currency is a code, each amount is
-- an integer, and in each currency the amounts sum to zero; it comes back as it is.
pub validated_iff :
    (ps : List PostingArg) (qs : List Posting)
    → (validated ps ≡ ok qs) ↔ ((ps ≡ map as_arg qs) × IsPostingSet qs)
validated_iff ps qs = (validated-IsPostingSet ps qs, λ h. rw h.0 (validated-map qs h.1))
