-- ===== src/Ledger/Commit/Outcomes.antt =====
-- `Ledger.commit_once` on each of its branches, and what a second call does.
use financial_engineering_sk.Prelude.{
  ◌≡◌, ◌≢◌, refl, ◌∙◌, Bool, true, false, [], ◌∷◌, ◌++◌, Option, none, some, String, ◌==◌,
  string_eq, Result, Error, ok, err, effect_conflict, Hook, absent, returns, raises, run_hook,
  Returns, run_hook-Returns, ◌>>◌, Bool-cases, inl, inr, eq_self, ne_test, eq_sound,
}
use financial_engineering_sk.Ledger.Record.{Fingerprint, fingerprint_eq, Entry, Ledger}
use financial_engineering_sk.Ledger.Queries.{entry_for_effect}
use financial_engineering_sk.Ledger.Commit.{
  CommitArgs, checked, new_entry, append_entry, commit_effect, commit_once,
}

module _ (a : CommitArgs) (l : Ledger) where
  -- Arguments that do not pass are refused, and nothing is written.
  pub commit_once-refused : {e : Error} → checked a ≡ err e → commit_once a l ≡ (err e, l)
  unfolding commit_once
  commit_once-refused h = rw h refl

  module _ {x : String} {f : Fingerprint} (passed : checked a ≡ ok (x, f)) where
    pub commit_once-passed : commit_once a l ≡ commit_effect a x f (entry_for_effect x l) l
    unfolding commit_once
    commit_once-passed = rw passed refl

    -- The same effect with the same content: the entry that is there, and nothing is written.
    pub commit_once-present :
        {e : Entry}
        → entry_for_effect x l ≡ some e
        → e.fingerprint ≡ f
        → commit_once a l ≡ (ok (e, false), l)
    unfolding commit_effect
    commit_once-present {e} found same = commit_once-passed ∙ rw (found, same, eq_self f) refl

    -- The same effect with another content is refused, and nothing is written.
    pub commit_once-conflict :
        {e : Entry}
        → entry_for_effect x l ≡ some e
        → e.fingerprint ≢ f
        → commit_once a l ≡ (err effect_conflict, l)
    unfolding commit_effect
    commit_once-conflict {e} found other =
        commit_once-passed ∙ rw (found, ne_test e.fingerprint f other) refl

    -- A new effect is appended, if the hooks return.
    pub commit_once-absent :
        entry_for_effect x l ≡ none
        → Returns a.seam
        → Returns a.fault
        → commit_once a l
          ≡ (ok (new_entry a x f l, true), record { entries = l.entries ++ new_entry a x f l ∷ [] })
    unfolding commit_effect append_entry
    commit_once-absent missing s h =
        commit_once-passed
        ∙ rw (missing, run_hook-Returns a.seam l s, run_hook-Returns a.fault l h) refl

-- How a call ends: it raises and has written nothing, it finds the effect with this content and
-- has written nothing, or it appends the one new entry.
pub data Ended (a : CommitArgs) (l : Ledger) : Result (Entry × Bool) × Ledger → Type 0 where
  refused : (e : Error) → Ended a l (err e, l)
  found :
      (x : String) (f : Fingerprint) (e : Entry)
      → checked a ≡ ok (x, f)
      → entry_for_effect x l ≡ some e
      → e.fingerprint ≡ f
      → Ended a l (ok (e, false), l)
  appended :
      (x : String) (f : Fingerprint)
      → checked a ≡ ok (x, f)
      → entry_for_effect x l ≡ none
      → Ended a l
          (ok (new_entry a x f l, true), record { entries = l.entries ++ new_entry a x f l ∷ [] })

append_entry-Ended :
    (a : CommitArgs) (l : Ledger) (x : String) (f : Fingerprint)
    → checked a ≡ ok (x, f)
    → entry_for_effect x l ≡ none
    → (seam fault : Hook) → Ended a l ((run_hook seam >> (run_hook fault >> append_entry a x f)) l)
unfolding append_entry run_hook
append_entry-Ended a l x f passed missing (raises e) fault = refused e
append_entry-Ended a l x f passed missing absent (raises e) = refused e
append_entry-Ended a l x f passed missing absent absent = appended x f passed missing
append_entry-Ended a l x f passed missing absent returns = appended x f passed missing
append_entry-Ended a l x f passed missing returns (raises e) = refused e
append_entry-Ended a l x f passed missing returns absent = appended x f passed missing
append_entry-Ended a l x f passed missing returns returns = appended x f passed missing

commit_effect-Ended :
    (a : CommitArgs) (l : Ledger) (x : String) (f : Fingerprint) (o : Option Entry)
    → checked a ≡ ok (x, f)
    → entry_for_effect x l ≡ o
    → Ended a l (commit_effect a x f o l)
unfolding commit_effect
commit_effect-Ended a l x f none passed e = append_entry-Ended a l x f passed e a.seam a.fault
commit_effect-Ended a l x f (some existing) passed e =
    elim (Bool-cases (existing.fingerprint == f)) [
      | inl same ↦ rw same (found x f existing passed e (eq_sound existing.fingerprint f same))
      | inr other ↦ rw other (refused effect_conflict)
    ]

pub commit_once-Ended : (a : CommitArgs) (l : Ledger) → Ended a l (commit_once a l)
unfolding commit_once
commit_once-Ended a l = go (checked a) refl
  where
    go : (r : Result (String × Fingerprint)) → checked a ≡ r → Ended a l (commit_once a l)
    go (err e) h = rw h (refused e)
    go (ok (x, f)) h = rw h (commit_effect-Ended a l x f (entry_for_effect x l) h refl)
