-- ===== src/Reconcile/Silence.antt =====
-- ledger.py, `reconcile`: when the detector says nothing about an identity.
use financial_engineering_sk.Prelude.{
  ◌≡◌, refl, ◌↔◌, Bool, true, false, not, ◌||◌, List, [], ◌∷◌, Option, none, some, String, ◌==◌,
  string_eq, int_eq, list_eq, Equality, if◌then◌else◌, ap, Bool-cases, inl, inr, eq_sound, eq_self,
  ltb, length,
}
use financial_engineering_sk.Prelude.Int.{ℤ, pos, pos_part, neg_part, ◌-ℤ◌, int_laws}
use financial_engineering_sk.Prose.{Prose}
use financial_engineering_sk.Ledger.Record.{Ledger}
use financial_engineering_sk.Reconcile.Rows.{Row}
use financial_engineering_sk.Reconcile.Lines.{Line}
use financial_engineering_sk.Reconcile.Figures.{
  deltas_of, any_delta, wrong_names, wrong_name, joined,
}
use financial_engineering_sk.Reconcile.Compare.{
  compare_one, other_currency, figures_of, is_duplicated, slashed,
}

-- The two sides say the same of an identity: one entry, one charge, one batch, the currency, and
-- the three figures.
pub record Agrees (line : Line) (row : Row) : Type 0 where
  pub one_currency : ltb 1 (length row.currencies) ≡ false
  pub currency : slashed row.currencies ≡ line.currency
  pub one_entry : is_duplicated row ≡ false
  pub charge : row.charge_ids ≡ line.charge_id ∷ []
  pub batch : row.batch_ids ≡ line.batch_id ∷ []
  pub gross : row.gross ≡ line.gross_minor
  pub fee : row.fee ≡ line.fee_minor
  pub net : row.net ≡ line.net_minor

module _ {ℓ} {A : Type ℓ} where
  none_if :
      (t : Bool) (b : A) (m : Option A)
      → (if t then some b else m) ≡ none
      → (t ≡ false) × (m ≡ none)
  none_if true b m h = cc
  none_if false b m h = (refl, h)

or-false : (a b : Bool) → (a || b) ≡ false → (a ≡ false) × (b ≡ false)
or-false true b h = cc
or-false false b h = (refl, h)

not-false : (a : Bool) → not a ≡ false → a ≡ true
not-false true h = refl
not-false false h = cc

not_other {ℓ} : {A : Type ℓ} ⦃e : Equality A⦄ (a b : A) → not (a == b) ≡ false → a ≡ b
not_other a b h = eq_sound a b (not-false (a == b) h)

no_delta : (a b : ℤ) → not (a -ℤ b == pos 0) ≡ false → a ≡ b
no_delta a b h =
    let d : a -ℤ b ≡ pos 0 = not_other (a -ℤ b) (pos 0) h in
    omega (int_laws, ap pos_part d, ap neg_part d)

any_delta-false :
    (line : Line) (row : Row)
    → any_delta (deltas_of line row) ≡ false
    → (row.gross ≡ line.gross_minor) × ((row.fee ≡ line.fee_minor) × (row.net ≡ line.net_minor))
unfolding any_delta deltas_of
any_delta-false line row h =
    let p = or-false _ _ h in
    let q = or-false _ _ p.1 in
    let r = or-false _ _ q.1 in (no_delta _ _ p.0, (no_delta _ _ q.0, no_delta _ _ r.0))

said :
    (name claim : String) (have : List String) → wrong_name name claim have ≡ [] → have ≡ claim ∷ []
said name claim have h = elim (Bool-cases (have == claim ∷ [])) [
  | inl e ↦ eq_sound have (claim ∷ []) e
  | inr e ↦ let k = rw e at h in cc
]

joined-nil : (by p q : Prose) → joined by p q ≡ [] → (p ≡ []) × (q ≡ [])
joined-nil by [] q h = (refl, h)
joined-nil by (x ∷ p) [] h = cc
joined-nil by (x ∷ p) (y ∷ q) h = cc

named :
    (line : Line) (row : Row)
    → wrong_names line row ≡ []
    → (row.charge_ids ≡ line.charge_id ∷ []) × (row.batch_ids ≡ line.batch_id ∷ [])
unfolding wrong_names
named line row h =
    let p = joined-nil _ _ _ h in
    (said "charge" line.charge_id row.charge_ids p.0, said "batch" line.batch_id row.batch_ids p.1)

figures_of-none :
    (id : String) (line : Line) (row : Row) (d : Bool) (w : Prose)
    → figures_of id line row d w ≡ none
    → (d ≡ false) × ((w ≡ []) × (any_delta (deltas_of line row) ≡ false))
figures_of-none id line row true w h = cc
figures_of-none id line row false [] h =
    (refl, (refl, (none_if (any_delta (deltas_of line row)) _ none h).0))
figures_of-none id line row false (x ∷ w) h = cc

silence_is_agreement :
    (l : Ledger) (id : String) (line : Line) (row : Row)
    → compare_one l id (some line) (some row) ≡ none
    → Agrees line row
unfolding compare_one
silence_is_agreement l id line row h =
    let p = none_if (other_currency (some line) row) _ _ h in
    let q = figures_of-none id line row (is_duplicated row) (wrong_names line row) p.1 in
    let c = or-false (ltb 1 (length row.currencies)) _ p.0 in
    let n = named line row q.1.0 in
    let f = any_delta-false line row q.1.1 in
    record {
      one_currency = c.0;
      currency = not_other (slashed row.currencies) line.currency c.1;
      one_entry = q.0;
      charge = n.0;
      batch = n.1;
      gross = f.0;
      fee = f.1.0;
      net = f.1.1;
    }

minus_self : (a : ℤ) → a -ℤ a ≡ pos 0
minus_self a = omega int_laws

same_name : (name claim : String) → wrong_name name claim (claim ∷ []) ≡ []
same_name name claim = rw (eq_self (claim ∷ [])) refl

agreed :
    (l : Ledger) (id : String) (line : Line) (row : Row)
    → Agrees line row
    → compare_one l id (some line) (some row) ≡ none
unfolding compare_one wrong_names any_delta deltas_of
agreed l id line row a =
    rw
      (
        a.one_currency,
        a.currency,
        eq_self line.currency,
        a.one_entry,
        a.charge,
        a.batch,
        eq_self (line.charge_id ∷ []),
        eq_self (line.batch_id ∷ []),
        a.gross,
        a.fee,
        a.net,
        minus_self line.gross_minor,
        minus_self line.fee_minor,
        minus_self line.net_minor,
      )
      refl

-- Nothing is reported of an identity exactly if its line and its row agree.
pub silent_iff_agreed :
    (l : Ledger) (id : String) (line : Line) (row : Row)
    → (compare_one l id (some line) (some row) ≡ none) ↔ Agrees line row
silent_iff_agreed l id line row = (silence_is_agreement l id line row, agreed l id line row)
