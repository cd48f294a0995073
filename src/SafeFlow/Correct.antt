-- ===== src/SafeFlow/Correct.antt =====
-- safe_flow.py: recording what a reconciliation found, and closing one break by an entry.
use financial_engineering_sk.Prelude.{
  Bool, true, false, not, ◌&&◌, ◌||◌, List, [], ◌∷◌, ◌++◌, Option, none, some, String, ◌⧺◌, ◌==◌,
  string_eq, int_eq, list_eq, if◌then◌else◌, Result, ok, err, value_error, unknown_break,
  break_already_closed, Exec, pure, raise_if, lift, gets, modify, ◌>>=◌, ◌>>◌, absent, sorted,
  by_key, keep,
}
use financial_engineering_sk.Prelude.Int.{ℤ, pos, neg, ◌+ℤ◌}
use financial_engineering_sk.Value.{Value, str, int}
use financial_engineering_sk.Prose.{Prose, value_eq, text, shown, number}
use financial_engineering_sk.Ledger.Record.{
  Posting, PostingArg, Attribution, AttributionArg, Claim, name, delta as claim_delta,
  text as claim_text, Entry, Fingerprint, fingerprint_eq, claim_eq, cash, fees as fees_account,
  receivable, differences, Delta,
}
use financial_engineering_sk.Ledger.Queries.{entry_for_settlement}
use financial_engineering_sk.Ledger.Commit.{CommitArgs}
use financial_engineering_sk.Store.Record.{Applied, BreakRecord, Store}
use financial_engineering_sk.Store.{record_breaks, break_record, effect, commit_effect, close_break}
use financial_engineering_sk.Reconcile.Break.{Break, break_eq, BreakContent, break_id, delta}
use financial_engineering_sk.Reconcile.Compare.{reconcile}
use financial_engineering_sk.SafeFlow.Worker.{Flow, on_store}

-- {x or '-'}
abbrev pub or_dash : Value → Prose
or_dash (str s) = if s == "" then text "-" ∷ [] else text s ∷ []
or_dash v = shown v ∷ []

-- `Attribution.describe`
abbrev pub describe_attribution : AttributionArg → Prose
describe_attribution a =
    text "settlement " ∷ or_dash a.settlement_id
    ++ text " charge " ∷ or_dash a.charge_id
    ++ text " batch " ∷ or_dash a.batch_id
    ++ text " [" ∷ or_dash a.currency
    ++ text "]" ∷ []

abbrev pub say_stakes : List (String × ℤ) → Prose
say_stakes [] = text "no amount" ∷ []
say_stakes ((c, m) ∷ []) = text c ∷ text " " ∷ number m ∷ []
say_stakes ((c, m) ∷ e ∷ stakes) =
    text c ∷ text " " ∷ number m ∷ text ", " ∷ say_stakes (e ∷ stakes)

abbrev pub delta_claims : List Delta → List Claim
delta_claims [] = []
delta_claims (d ∷ ds) = claim_delta d ∷ delta_claims ds

-- The three movements, in the order of their accounts, each that is not zero.
abbrev pub moves : Break → List (String × ℤ)
moves brk =
    (cash, neg (delta brk "net"))
    ∷ (fees_account, neg (delta brk "fee"))
    ∷ (receivable, delta brk "gross")
    ∷ []

abbrev pub sum_values : List (String × ℤ) → ℤ
sum_values [] = pos 0
sum_values ((a, v) ∷ ms) = v +ℤ sum_values ms

abbrev pub move_postings : Value → List (String × ℤ) → List PostingArg
move_postings currency [] = []
move_postings currency ((a, v) ∷ ms) =
    let rest = move_postings currency ms in
    if v == pos 0
    then rest
    else (record { account = a; currency = currency; amount_minor = int v }) ∷ rest

abbrev pub residue_postings : Value → ℤ → List PostingArg
residue_postings currency residue =
    if residue == pos 0
    then []
    else (record { account = differences; currency = currency; amount_minor = int residue }) ∷ []

-- What the correction of a break posts.
unfoldable pub correction_postings : Break → List PostingArg
unfolding neg delta
correction_postings brk =
    move_postings brk.attribution.currency (sorted by_key (moves brk))
    ++ residue_postings brk.attribution.currency (neg (sum_values (moves brk)))

abbrev pub posting_matches : Posting → PostingArg → Bool
posting_matches p q =
    p.account == q.account && str p.currency == q.currency && int p.amount_minor == q.amount_minor

abbrev pub postings_match : List Posting → List PostingArg → Bool
postings_match [] [] = true
postings_match (p ∷ ps) (q ∷ qs) = posting_matches p q && postings_match ps qs
postings_match _ _ = false

abbrev pub attribution_matches : Attribution → Option AttributionArg → Bool
attribution_matches a none = false
attribution_matches a (some b) =
    str a.settlement_id == b.settlement_id
    && str a.charge_id == b.charge_id
    && str a.batch_id == b.batch_id
    && str a.currency == b.currency

abbrev pub no_deltas : List Delta → Bool
no_deltas [] = true
no_deltas (_ ∷ _) = false

-- entry_for_settlement of an identity that may be anything
abbrev pub original_entry : Value → Store → Option Entry
original_entry (str s) store = entry_for_settlement s store.ledger
original_entry _ store = none

abbrev pub entry_or_raise : Option Entry → Result Entry
entry_or_raise none = err unknown_break
entry_or_raise (some e) = ok e

module _ (digest : BreakContent → String) where
  abbrev pub describe_break : Break → Prose
  describe_break brk =
      text (break_id digest brk)
        ∷ text " "
        ∷ text brk.kind
        ∷ text ": "
        ∷ describe_attribution brk.attribution
      ++ text " " ∷ brk.detail
      ++ text "; at stake " ∷ say_stakes brk.at_stake

  abbrev pub correction_claim : Break → String → List Claim
  correction_claim brk approved_by =
      claim_text (break_id digest brk)
        ∷ name brk.attribution.settlement_id
        ∷ name brk.attribution.charge_id
        ∷ name brk.attribution.batch_id
        ∷ name brk.attribution.currency
        ∷ delta_claims brk.deltas
      ++ claim_text approved_by ∷ []

  -- The entry that corrects another one.
  unfoldable pub correction_args : Break → String → Entry → CommitArgs
  unfolding correction_postings
  correction_args brk approved_by original = record {
    effect_id = str ("correction:" ⧺ break_id digest brk);
    claim = correction_claim brk approved_by;
    kind = "correction";
    reference = brk.attribution.settlement_id;
    postings = correction_postings brk;
    attribution = some brk.attribution;
    memo = describe_break brk ++ text "; approved by " ∷ text approved_by ∷ [];
    corrects = original.entry_id;
    break_id = break_id digest brk;
    seam = absent;
    fault = absent;
  }

  -- existing.fields == content_fingerprint(…)
  unfoldable pub is_content_of : CommitArgs → Fingerprint → Bool
  is_content_of a f =
      f.claim == a.claim
      && f.kind == a.kind
      && str f.reference == a.reference
      && postings_match f.postings a.postings
      && attribution_matches f.attribution a.attribution
      && f.corrects == a.corrects
      && f.break_id == a.break_id

  -- What is refused of a break before anything is looked up.
  unfoldable pub not_correctable : Break → String → Bool
  not_correctable brk approved_by =
      approved_by == "" || no_deltas brk.deltas || brk.kind == "duplicate_entry"

  -- The record of this very break.
  abbrev pub recorded : Break → Option BreakRecord → Result BreakRecord
  recorded brk none = err unknown_break
  recorded brk (some r) = if r.brk == brk then ok r else err unknown_break

  -- A closed break: the same correction again, or a refusal.
  unfoldable pub replay_closed : CommitArgs → Option Applied → Result Applied
  unfolding is_content_of
  replay_closed a none = err break_already_closed
  replay_closed a (some existing) =
      if is_content_of a existing.fields then ok existing else err break_already_closed

  module _ {P : Type 0} where
    -- self.breaks = …
    abbrev pub set_breaks : List Break → Exec (Flow P) Unit
    set_breaks breaks = modify (λ (f : Flow P). record f { breaks = breaks })

    unfoldable pub run_reconciliation : Value → Exec (Flow P) (List Break)
    run_reconciliation report f =
        let breaks = reconcile report f.store.ledger in
        (ok breaks, record f { store = record_breaks digest breaks f.store; breaks = breaks })

    unfoldable pub close_open : Break → String → CommitArgs → Exec (Flow P) Applied
    close_open brk approved_by a = do
      applied ← on_store (commit_effect a [] absent)
      on_store (close_break (break_id digest brk) applied.entry_id approved_by)
      breaks ← gets (λ (f : Flow P). f.breaks)
      set_breaks (keep (λ b. not (break_id digest b == break_id digest brk)) breaks)
      pure applied

    unfoldable pub correct : Break → String → CommitArgs → Bool → Exec (Flow P) Applied
    correct brk approved_by a true = close_open brk approved_by a
    correct brk approved_by a false = do
      existing ← gets (λ (f : Flow P). effect ("correction:" ⧺ break_id digest brk) f.store)
      lift (replay_closed a existing)

    unfoldable pub apply_correction : Break → String → Exec (Flow P) Applied
    apply_correction brk approved_by = do
      raise_if (not_correctable brk approved_by) value_error
      found ← gets (λ (f : Flow P). break_record (break_id digest brk) f.store)
      r ← lift (recorded brk found)
      original ← gets (λ (f : Flow P). original_entry brk.attribution.settlement_id f.store)
      entry ← lift (entry_or_raise original)
      correct brk approved_by (correction_args brk approved_by entry) r.is_open
