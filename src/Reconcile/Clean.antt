-- ===== src/Reconcile/Clean.antt =====
-- ledger.py, `_report_lines`: the breaks and the unreadable lines of a report.
use financial_engineering_sk.Prelude.{
  ℕ, ◌+◌, ◌≡◌, refl, List, [], ◌∷◌, ◌++◌, Option, none, some, String, ◌⧺◌, ◌==◌, string_eq, int_eq,
  Bool-cases, inl, inr,
}
use financial_engineering_sk.Prelude.Int.{ℤ, pos, ◌-ℤ◌}
use financial_engineering_sk.Prelude.Decimal.{decimal}
use financial_engineering_sk.Prelude.Dict.{lookup}
use financial_engineering_sk.Prose.{Prose}
use financial_engineering_sk.Value.{Value, Items, Fields, dict, nil, cons, get}
use financial_engineering_sk.Reconcile.Lines.{
  Line, Gathered, nothing_gathered, RawLine, raw_line, missing_fields, unnamed_fields, bad_amounts,
  unread, line_of,
}
use financial_engineering_sk.Reconcile.ReadLines.{
  duplicate_line, gather_line, distinct_line, amounts_read, names_read, fields_read, read_line,
  read_lines, line_items, report_lines,
}

-- Without a break there is no unreadable line.
abbrev pub IsClean : Gathered → Type 0
IsClean g = g.breaks ≡ [] → g.unreadable ≡ []

pub snoc≢nil {ℓ} : {A : Type ℓ} (xs : List A) (x : A) → xs ++ x ∷ [] ≡ [] → ⊥
snoc≢nil [] x h = cc
snoc≢nil (y ∷ xs) x h = cc

unread-IsClean :
    (g : Gathered) (r : RawLine) (kind : String) (detail : Prose) (at_stake : List (String × ℤ))
    → IsClean (unread g r kind detail at_stake)
unfolding unread
unread-IsClean g r kind detail at_stake h = absurd (snoc≢nil g.breaks _ h)

gather_line-IsClean :
    (g : Gathered) (r : RawLine) (l : Line) → IsClean g → IsClean (gather_line g r l)
unfolding gather_line
gather_line-IsClean g r l c =
    elim (Bool-cases (l.gross_minor -ℤ l.fee_minor -ℤ l.net_minor == pos 0)) [
      | inl e ↦ rw e c
      | inr e ↦ rw e (unread-IsClean g r _ _ _)
    ]

distinct_line-IsClean :
    (g : Gathered) (r : RawLine) (l : Line) → IsClean g → IsClean (distinct_line g r l)
unfolding distinct_line duplicate_line
distinct_line-IsClean g r l c = go (lookup r.identity g.lines)
  where
    go :
        (o : Option Line)
        → IsClean (elim o [ none ↦ gather_line g r l | some earlier ↦ duplicate_line g r l ])
    go none = gather_line-IsClean g r l c
    go (some earlier) = λ h. absurd (snoc≢nil g.breaks _ h)

amounts_read-IsClean :
    (g : Gathered) (r : RawLine) (complaint : Prose)
    → IsClean g
    → IsClean (amounts_read g r complaint)
unfolding amounts_read
amounts_read-IsClean g r [] c = distinct_line-IsClean g r (line_of r) c
amounts_read-IsClean g r (p ∷ ps) c = unread-IsClean g r _ _ _

names_read-IsClean :
    (g : Gathered) (r : RawLine) (complaint : Prose)
    → IsClean g
    → IsClean (names_read g r complaint)
unfolding names_read
names_read-IsClean g r [] c = amounts_read-IsClean g r (bad_amounts r) c
names_read-IsClean g r (p ∷ ps) c = unread-IsClean g r _ _ _

fields_read-IsClean :
    (g : Gathered) (r : RawLine) (complaint : Prose)
    → IsClean g
    → IsClean (fields_read g r complaint)
unfolding fields_read
fields_read-IsClean g r [] c = names_read-IsClean g r (unnamed_fields r) c
fields_read-IsClean g r (p ∷ ps) c = unread-IsClean g r _ _ _

read_line-IsClean :
    (name : String) (batch currency : Value) (g : Gathered) (line : Value)
    → IsClean g
    → IsClean (read_line name batch currency g line)
unfolding read_line
read_line-IsClean name batch currency g (dict line) c =
    fields_read-IsClean g (raw_line name batch currency line)
      (missing_fields (raw_line name batch currency line)) c
read_line-IsClean name batch currency g _ c = λ h. absurd (snoc≢nil g.breaks _ h)

read_lines-IsClean :
    (index : ℕ) (batch currency : Value) (g : Gathered) (lines : Items)
    → IsClean g
    → IsClean (read_lines index batch currency g lines)
unfolding read_lines
read_lines-IsClean index batch currency g nil c = c
read_lines-IsClean index batch currency g (cons line lines) c =
    read_lines-IsClean (index + 1) batch currency _ lines
      (read_line-IsClean ("unidentified_line_" ⧺ decimal (index + 1)) batch currency g line c)

pub report_lines-IsClean : (report : Fields) → IsClean (report_lines report)
unfolding report_lines
report_lines-IsClean report =
    read_lines-IsClean 0 _ _ nothing_gathered (line_items (get "lines" report)) (λ h. refl)
