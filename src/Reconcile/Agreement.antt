-- ===== src/Reconcile/Agreement.antt =====
-- ledger.py, `reconcile`: what a report without breaks says of everything that the ledger claims.
use financial_engineering_sk.Prelude.{
  ◌≡◌, refl, subst, Bool, true, not, ◌&&◌, List, [], ◌∷◌, ◌++◌, Option, none, some, String, ◌==◌,
  string_eq, Bool-cases, inl, inr, eq_sound, All, All-unsorted, keep, sorted, text_le, contains,
}
use financial_engineering_sk.Prelude.Dict.{Dict, lookup}
use financial_engineering_sk.Value.{Value, Fields, list, dict, get}
use financial_engineering_sk.Ledger.Record.{AttributionArg, Ledger}
use financial_engineering_sk.Reconcile.Break.{Break}
use financial_engineering_sk.Reconcile.Rows.{Row, add, ledger_settlements}
use financial_engineering_sk.Reconcile.Lines.{Line, Gathered}
use financial_engineering_sk.Reconcile.Report.{envelope, lines_breaks, is_list, none_of}
use financial_engineering_sk.Reconcile.ReadLines.{report_lines}
use financial_engineering_sk.Reconcile.Compare.{
  compare_one, compare_all, add_names, compared_names, checked_total, other_currency,
  reconcile_lines, reconcile, option_list,
}
use financial_engineering_sk.Reconcile.Clean.{report_lines-IsClean}
use financial_engineering_sk.Reconcile.Silence.{Agrees, silent_iff_agreed}

append-nil_left {ℓ} : {A : Type ℓ} (xs ys : List A) → xs ++ ys ≡ [] → (xs ≡ []) × (ys ≡ [])
append-nil_left [] ys h = (refl, h)
append-nil_left (x ∷ xs) ys h = cc

option_list-nil : (o : Option Break) → option_list o ≡ [] → o ≡ none
option_list-nil none h = refl
option_list-nil (some b) h = cc

compare_all-silent :
    (l : Ledger) (lines : Dict String Line) (rows : Dict String Row) (ids : List String)
    → compare_all l lines rows ids ≡ []
    → All (λ (id : String). compare_one l id (lookup id lines) (lookup id rows) ≡ none) ids
unfolding compare_all
compare_all-silent l lines rows [] h = tt
compare_all-silent l lines rows (id ∷ ids) h =
    let p =
      append-nil_left (option_list (compare_one l id (lookup id lines) (lookup id rows)))
        (compare_all l lines rows ids) h in
    (option_list-nil _ p.0, compare_all-silent l lines rows ids p.1)

module _ {κ} (P : String → Type κ) where
  All-kept :
      (test : String → Bool) (ids : List String)
      → ((id : String) → test id ≡ true)
      → All P (keep test ids)
      → All P ids
  All-kept test [] t h = tt
  All-kept test (id ∷ ids) t h =
      let h' : P id × All P (keep test ids) = rw (t id) at h in (h'.0, All-kept test ids t h'.1)

  All-contains : (x : String) (xs : List String) → contains xs x ≡ true → All P xs → P x
  All-contains x [] c h = cc
  All-contains x (y ∷ ys) c h = elim (Bool-cases (y == x)) [
    | inl e ↦ subst P (eq_sound y x e) h.0
    | inr e ↦ All-contains x ys (rw e at c) h.1
  ]

  All-add : (x : String) (xs : List String) → All P (add x xs) → P x × All P xs
  All-add x xs h = elim (Bool-cases (contains xs x)) [
    | inl e ↦ let h' : All P xs = rw e at h in (All-contains x xs e h', h')
    | inr e ↦ rw e at h
  ]

  All-add_names {ν} :
      {V : Type ν} (d : Dict String V) (names : List String) (id : String) {v : V}
      → All P (add_names d names)
      → lookup id d ≡ some v
      → P id
  All-add_names [] names id h q = cc
  All-add_names ((k, w) ∷ d) names id h q =
      let (here, there) = All-add k (add_names d names) h in
      elim (Bool-cases (k == id)) [
        | inl e ↦ subst P (eq_sound k id e) here
        | inr e ↦ All-add_names d names id there (rw e at q)
      ]

  All-later_names {ν} :
      {V : Type ν} (d : Dict String V) (names : List String)
      → All P (add_names d names)
      → All P names
  All-later_names [] names h = h
  All-later_names ((k, w) ∷ d) names h = All-later_names d names (All-add k (add_names d names) h).1

some_break : {b : Break} → b ∷ [] ≡ [] → ⊥
some_break h = cc

list_only :
    (here : AttributionArg) (found : List Break) (lines : Value)
    → found ++ lines_breaks here lines ≡ []
    → (is_list lines ≡ true) × ((is_list lines && none_of found) ≡ true)
unfolding lines_breaks
list_only here [] (list lines) h = (refl, refl)
list_only here (b ∷ found) (list lines) h = cc
list_only here found _ h = absurd (some_break (append-nil_left found _ h).1)

-- An envelope without breaks can be read and compared.
sound_envelope :
    (report : Fields)
    → (envelope report).breaks ≡ []
    → ((envelope report).readable ≡ true) × ((envelope report).comparable ≡ true)
unfolding envelope
sound_envelope report h = list_only _ _ (get "lines" report) h

no_unreadable :
    (id : String) (unreadable : List String) → unreadable ≡ [] → not (contains unreadable id) ≡ true
no_unreadable id unreadable h = rw h refl

module _ (report : Fields) (l : Ledger) (silent : reconcile (dict report) l ≡ []) where
  abbrev read : Gathered
  read = report_lines report

  compared : reconcile_lines report read true l ≡ []
  unfolding reconcile
  compared =
      let p = append-nil_left (envelope report).breaks _ silent in
      let (readable, comparable) = sound_envelope report p.0 in rw (readable, comparable) at p.1

  abbrev IsSilent : String → Type 0
  IsSilent id = compare_one l id (lookup id read.lines) (lookup id (ledger_settlements l)) ≡ none

  every_comparison_is_none :
      All IsSilent (add_names read.lines (add_names (ledger_settlements l) []))
  unfolding reconcile_lines compared_names
  every_comparison_is_none =
      let p = append-nil_left read.breaks _ compared in
      let q = append-nil_left (checked_total report read) _ p.1 in
      let clean = report_lines-IsClean report p.0 in
      let names = add_names read.lines (add_names (ledger_settlements l) []) in
      let kept = keep (λ (id : String). not (contains read.unreadable id)) names in
      let every : All IsSilent (sorted text_le kept) =
        compare_all-silent l read.lines (ledger_settlements l) (sorted text_le kept) q.1 in
      All-kept IsSilent (λ (id : String). not (contains read.unreadable id)) names
        (λ id. no_unreadable id read.unreadable clean) (All-unsorted IsSilent text_le kept every)

break≢none : {b : Break} → some b ≡ none → ⊥
break≢none h = cc

row_alone : (l : Ledger) (id : String) (row : Row) → compare_one l id none (some row) ≡ none → ⊥
unfolding compare_one
row_alone l id row h = elim (Bool-cases (other_currency none row)) [
  | inl e ↦ break≢none (rw e at h)
  | inr e ↦ break≢none (rw e at h)
]

line_alone : (l : Ledger) (id : String) (line : Line) → compare_one l id (some line) none ≡ none → ⊥
unfolding compare_one
line_alone l id line h = break≢none h

-- A row alone, or a line alone, is a break.
row_has_line :
    (l : Ledger) (id : String) (o : Option Line) (row : Row)
    → compare_one l id o (some row) ≡ none
    → (line : Line) × (o ≡ some line) × Agrees line row
row_has_line l id none row h = absurd (row_alone l id row h)
row_has_line l id (some line) row h = (line, refl, (silent_iff_agreed l id line row).0 h)

line_has_row :
    (l : Ledger) (id : String) (line : Line) (o : Option Row)
    → compare_one l id (some line) o ≡ none
    → (row : Row) × (o ≡ some row) × Agrees line row
line_has_row l id line none h = absurd (line_alone l id line h)
line_has_row l id line (some row) h = (row, refl, (silent_iff_agreed l id line row).0 h)

-- If a reconciliation finds nothing, each settlement identity that the ledger holds has a line in the
-- report that agrees with it in full.
pub silent_report_covers_ledger :
    (report : Fields) (l : Ledger) (id : String) (row : Row)
    → reconcile (dict report) l ≡ []
    → lookup id (ledger_settlements l) ≡ some row
    → (line : Line) × (lookup id (report_lines report).lines ≡ some line) × Agrees line row
silent_report_covers_ledger report l id row silent held =
    let lines = (report_lines report).lines in
    let names =
      All-later_names (IsSilent report l silent) lines (add_names (ledger_settlements l) [])
        (every_comparison_is_none report l silent) in
    let settled =
      All-add_names (IsSilent report l silent) (ledger_settlements l) [] id names held in
    row_has_line l id (lookup id lines) row (rw held at settled)

-- If a reconciliation finds nothing, each settlement identity that the report claims is held by the
-- ledger, in full agreement with the line.
pub silent_report_is_covered :
    (report : Fields) (l : Ledger) (id : String) (line : Line)
    → reconcile (dict report) l ≡ []
    → lookup id (report_lines report).lines ≡ some line
    → (row : Row) × (lookup id (ledger_settlements l) ≡ some row) × Agrees line row
silent_report_is_covered report l id line silent claimed =
    let settled =
      All-add_names (IsSilent report l silent) (report_lines report).lines
        (add_names (ledger_settlements l) []) id (every_comparison_is_none report l silent)
        claimed in
    line_has_row l id line (lookup id (ledger_settlements l)) (rw claimed at settled)
