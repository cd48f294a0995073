-- ===== src/Ledger/Commit.antt =====
-- ledger.py, `Ledger.commit_once`: one entry for one effect identity, at most once.
pub mod Outcomes
pub mod Invariant
use financial_engineering_sk.Prelude.{
  ◌+◌, Bool, true, false, not, ◌&&◌, List, [], ◌∷◌, ◌++◌, Option, none, some, String, ◌⧺◌, ◌==◌,
  string_eq, if◌then◌else◌, Result, ok, err, effect_conflict, and_then, Exec, pure, raise, lift,
  gets, ◌>>=◌, ◌>>◌, Hook, run_hook, length,
}
use financial_engineering_sk.Prelude.Decimal.{decimal}
use financial_engineering_sk.Value.{Value, str, is_text}
use financial_engineering_sk.Money.{validated_identifier}
use financial_engineering_sk.Prose.{Prose}
use financial_engineering_sk.Ledger.Record.{
  Posting, PostingArg, Attribution, AttributionArg, no_attribution, Claim, Fingerprint,
  content_fingerprint, fingerprint_eq, Entry, Ledger,
}
use financial_engineering_sk.Ledger.Validate.{validated}
use financial_engineering_sk.Ledger.Queries.{entry_for_effect}

-- The arguments of `commit_once`.
pub record CommitArgs : Type 0 where
  pub effect_id : Value
  pub claim : List Claim
  pub kind : String
  pub reference : Value
  pub postings : List PostingArg
  pub attribution : Option AttributionArg
  pub memo : Prose
  pub corrects : String
  pub break_id : String
  pub seam : Hook
  pub fault : Hook

-- Only the empty text means "not applicable".
abbrev pub validated_label : Value → Result String
validated_label v = if is_text "" v then ok "" else validated_identifier v

unfoldable pub validated_attribution : Option AttributionArg → Result Attribution
unfolding validated_identifier
validated_attribution none = ok no_attribution
validated_attribution (some a) = and_then (validated_label a.settlement_id) λ settlement_id.
    and_then (validated_label a.charge_id) λ charge_id.
      and_then (validated_label a.batch_id) λ batch_id.
        and_then (validated_label a.currency) λ currency. ok (record {
          settlement_id = settlement_id;
          charge_id = charge_id;
          batch_id = batch_id;
          currency = currency;
        })

-- What is checked before the lock is taken: all of the entry but its number.
unfoldable pub checked : CommitArgs → Result (String × Fingerprint)
unfolding validated_identifier validated_attribution validated
checked a = and_then (validated_identifier a.effect_id) λ effect_id.
    and_then (validated_identifier a.reference) λ reference.
      and_then (validated_attribution a.attribution) λ attribution.
        and_then (validated a.postings) λ postings. ok (
          effect_id,
          content_fingerprint a.claim a.kind reference postings attribution a.corrects a.break_id,
        )

-- The entry that the checked arguments make, at its place in the ledger.
unfoldable pub new_entry : CommitArgs → String → Fingerprint → Ledger → Entry
unfolding decimal
new_entry a effect_id f l = record {
  entry_id = "e" ⧺ decimal (length l.entries + 1);
  kind = f.kind;
  reference = f.reference;
  postings = f.postings;
  effect_id = effect_id;
  fingerprint = f;
  attribution = f.attribution;
  memo = a.memo;
  corrects = f.corrects;
  break_id = f.break_id;
}

unfoldable pub append_entry : CommitArgs → String → Fingerprint → Exec Ledger (Entry × Bool)
unfolding new_entry
append_entry a effect_id f l =
    let e = new_entry a effect_id f l in (ok (e, true), record { entries = l.entries ++ e ∷ [] })

-- The body under the lock.
unfoldable pub commit_effect :
    CommitArgs → String → Fingerprint → Option Entry → Exec Ledger (Entry × Bool)
unfolding append_entry
commit_effect a effect_id f (some existing) =
    if existing.fingerprint == f then pure (existing, false) else raise effect_conflict
commit_effect a effect_id f none = do run_hook a.seam; run_hook a.fault; append_entry a effect_id f

unfoldable pub commit_once : CommitArgs → Exec Ledger (Entry × Bool)
unfolding checked commit_effect entry_for_effect
commit_once a = do
  (effect_id, f) ← lift (checked a)
  existing ← gets (entry_for_effect effect_id)
  commit_effect a effect_id f existing
