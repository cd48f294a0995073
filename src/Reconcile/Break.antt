-- ===== src/Reconcile/Break.antt =====
-- ledger.py, `Break`: one settlement identity, one disagreement.
use financial_engineering_sk.Prelude.{
  refl, List, [], ◌∷◌, String, ◌==◌, string_eq, int_eq, pair_eq, list_eq, Equality, equality_via,
  if◌then◌else◌, sorted, by_key,
}
use financial_engineering_sk.Prelude.Int.{ℤ, pos}
use financial_engineering_sk.Prose.{Prose, piece_eq}
use financial_engineering_sk.Ledger.Record.{AttributionArg, attribution_arg_eq, Delta, delta_eq}
use financial_engineering_sk.Ledger.Validate.{Totals, add_total}

pub record Break : Type 0 where
  pub kind : String
  pub attribution : AttributionArg
  pub detail : Prose
  pub at_stake : List (String × ℤ)
  pub deltas : List Delta

instance abbrev pub break_eq : Equality Break
break_eq =
    equality_via (λ (b : Break). ((b.kind, b.attribution), (b.detail, (b.at_stake, b.deltas))))
      (λ (t : (String × AttributionArg) × (Prose × (List (String × ℤ) × List Delta))). record {
        kind = t.0.0;
        attribution = t.0.1;
        detail = t.1.0;
        at_stake = t.1.1.0;
        deltas = t.1.1.1;
      })
      (λ b. refl)

-- What `break_id` hashes: the content of a break without its prose.
pub record BreakContent : Type 0 where
  pub kind : String
  pub attribution : AttributionArg
  pub at_stake : List (String × ℤ)
  pub deltas : List Delta

abbrev pub content : Break → BreakContent
content b = record {
  kind = b.kind;
  attribution = b.attribution;
  at_stake = b.at_stake;
  deltas = b.deltas;
}

-- `Break.break_id`, given the text that hashing makes of a break's content
abbrev pub break_id : (BreakContent → String) → Break → String
break_id digest b = digest (content b)

-- next((d for q, _r, _l, d in self.deltas if q == quantity), 0)
abbrev delta_in : String → List Delta → ℤ
delta_in quantity [] = pos 0
delta_in quantity (d ∷ ds) = if d.quantity == quantity then d.delta_minor else delta_in quantity ds

unfoldable pub delta : Break → String → ℤ
delta b quantity = delta_in quantity b.deltas

abbrev amount_in : String → List (String × ℤ) → ℤ
amount_in currency [] = pos 0
amount_in currency ((c, m) ∷ ms) = if c == currency then m else amount_in currency ms

unfoldable pub amount : Break → String → ℤ
amount b currency = amount_in currency b.at_stake

unfoldable pub add_stakes : List (String × ℤ) → Totals → Totals
add_stakes [] totals = totals
add_stakes ((currency, minor) ∷ stakes) totals = add_stakes stakes (add_total currency minor totals)

unfoldable pub add_breaks : List Break → Totals → Totals
unfolding add_stakes
add_breaks [] totals = totals
add_breaks (b ∷ breaks) totals = add_breaks breaks (add_stakes b.at_stake totals)

unfoldable pub exposure : List Break → Totals
unfolding add_breaks
exposure breaks = sorted by_key (add_breaks breaks [])
