-- ===== src/Store/Effects.antt =====
-- `Store.commit_once`: the entry, then the intents, and what an interruption between them leaves.
use financial_engineering_sk.Prelude.{
  ◌≡◌, refl, sym, ap, subst, Bool, false, List, [], ◌∷◌, String, string_eq, Result, Error, ok, err,
  Hook, absent, returns, raises, run_hook, run_hook-Returns, Returns, All, Option-cases, inl, inr,
  and_then-eq-ok, ok-injective, err≢ok,
}
use financial_engineering_sk.Prelude.Dict.{
  Dict, lookup, insert, UniqueKeys, insert-UniqueKeys, insert-All, lookup-All,
}
use financial_engineering_sk.Ledger.Record.{Entry, Ledger}
use financial_engineering_sk.Ledger.Commit.{CommitArgs, commit_once}
use financial_engineering_sk.Ledger.Commit.Invariant.{IsValid, commit_once-IsValid}
use financial_engineering_sk.Ledger.History.{replay, retry_applies_nothing}
use financial_engineering_sk.Store.Record.{Intent, IntentUpdate, Store}
use financial_engineering_sk.Store.Authority.{HasOneAuthority, IsPinned}
use financial_engineering_sk.Store.{updated_intents, insert_all, commit_effect, applied_entry}

-- The outcome of a call whose intents are all on file, by the outcome of the ledger's.
module _ (a : CommitArgs) (updates : List (String × IntentUpdate)) (after_entry : Hook)
    (s : Store) where
  -- An intent that the store does not hold: refused with nothing written.
  pub unknown_intent_refused :
      {e : Error}
      → updated_intents updates s.intents ≡ err e
      → commit_effect a updates after_entry s ≡ (err e, s)
  unfolding commit_effect
  unknown_intent_refused h = rw h refl

  module _ {updated : List (String × Intent)}
      (known : updated_intents updates s.intents ≡ ok updated) {l : Ledger} where
    pub commit_effect_raises :
        {e : Error}
        → commit_once a s.ledger ≡ (err e, l)
        → commit_effect a updates after_entry s ≡ (err e, record s { ledger = l })
    unfolding commit_effect
    commit_effect_raises h = rw (known, h) refl

    commit_effect_interrupted :
        {entry : Entry} {b : Bool} {e : Error}
        → commit_once a s.ledger ≡ (ok (entry, b), l)
        → after_entry ≡ raises e
        → commit_effect a updates after_entry s ≡ (err e, record s { ledger = l })
    unfolding commit_effect run_hook
    commit_effect_interrupted h hook = rw (known, h, hook) refl

    pub commit_effect_completes :
        {entry : Entry} {b : Bool}
        → commit_once a s.ledger ≡ (ok (entry, b), l)
        → Returns after_entry
        → commit_effect a updates after_entry s ≡ (
          ok (applied_entry (entry, b)),
          record s { ledger = l; intents = insert_all updated s.intents },
        )
    unfolding commit_effect
    commit_effect_completes h hook =
        rw (known, h, run_hook-Returns after_entry (record s { ledger = l }) hook) refl

-- An interruption between the entry and the intents loses nothing: the entry stands and the intents
-- have not moved; the same call again, not interrupted, posts nothing, answers with that entry, and
-- moves the intents as the first call would have.
pub interrupted_commit_is_redone :
    (a : CommitArgs) (updates : List (String × IntentUpdate)) (updated : List (String × Intent))
    (s : Store) (e : Error) (entry : Entry) (b : Bool)
    → updated_intents updates s.intents ≡ ok updated
    → (commit_once a s.ledger).0 ≡ ok (entry, b)
    → let (answer, s') = commit_effect a updates (raises e) s in
      (answer ≡ err e)
      × (s' ≡ record s { ledger = (commit_once a s.ledger).1 })
      × (commit_effect a updates absent s' ≡ (
        ok (applied_entry (entry, false)),
        record s' { intents = insert_all updated s.intents },
      ))
interrupted_commit_is_redone a updates updated s e entry b known h =
    let l = (commit_once a s.ledger).1 in
    let posted : commit_once a s.ledger ≡ (ok (entry, b), l) =
      ap (λ (r : Result (Entry × Bool)). (r, l)) h in
    let again : commit_once a l ≡ (ok (entry, false), l) =
      unfold replay in retry_applies_nothing a a [] s.ledger entry b h refl in
    rw (commit_effect_interrupted a updates (raises e) s known posted refl) (
      refl,
      refl,
      commit_effect_completes a updates absent (record s { ledger = l }) known again tt,
    )

-- The intents that are moved keep their key, their decision and their authority.
updated_intents-All :
    (serving : List String) (updates : List (String × IntentUpdate)) (intents : Dict String Intent)
    (updated : List (String × Intent))
    → All (IsPinned serving) intents
    → updated_intents updates intents ≡ ok updated
    → All (IsPinned serving) updated
unfolding updated_intents
updated_intents-All serving [] intents updated pins h =
    subst (λ (l : List (String × Intent)). All (IsPinned serving) l) (ok-injective h) tt
updated_intents-All serving ((key, u) ∷ updates) intents updated pins h =
    elim (Option-cases (lookup key intents)) [
      | inl missing ↦ absurd (err≢ok (rw (missing, updated_intents) at h))
      | inr (i, present) ↦
          let (rest, moved, made) =
            and_then-eq-ok (updated_intents updates intents) _
              (rw (present, updated_intents) at h) in
          subst (λ (l : List (String × Intent)). All (IsPinned serving) l) (ok-injective made)
            (
              lookup-All (IsPinned serving) key i intents pins present,
              updated_intents-All serving updates intents rest pins moved,
            )
    ]

insert_all-pins :
    (serving : List String) (updated : List (String × Intent)) (intents : Dict String Intent)
    → All (IsPinned serving) updated
    → All (IsPinned serving) intents
    → All (IsPinned serving) (insert_all updated intents)
unfolding insert_all
insert_all-pins serving [] intents u h = h
insert_all-pins serving ((k, i) ∷ updated) intents u h =
    insert_all-pins serving updated (insert k i intents) u.1
      (insert-All (IsPinned serving) k i intents u.0 h)

insert_all-UniqueKeys :
    (updated : List (String × Intent)) (intents : Dict String Intent)
    → UniqueKeys intents
    → UniqueKeys (insert_all updated intents)
unfolding insert_all
insert_all-UniqueKeys [] intents u = u
insert_all-UniqueKeys ((k, i) ∷ updated) intents u =
    insert_all-UniqueKeys updated (insert k i intents) (insert-UniqueKeys k i intents u)

commit_effect-keeps_known :
    (a : CommitArgs) (updates : List (String × IntentUpdate)) (after_entry : Hook) (s : Store)
    {updated : List (String × Intent)}
    → updated_intents updates s.intents ≡ ok updated
    → (r : Result (Entry × Bool)) (l : Ledger) → commit_once a s.ledger ≡ (r, l)
    → IsValid l
    → HasOneAuthority s
    → let s' = (commit_effect a updates after_entry s).1 in IsValid s'.ledger × HasOneAuthority s'
commit_effect-keeps_known a updates after_entry s known (err e) l posted v h =
    rw (commit_effect_raises a updates after_entry s known posted)
      (v, record { pins = h.pins; keys = h.keys })
commit_effect-keeps_known a updates after_entry s {updated} known (ok (entry, b)) l posted v h =
    go after_entry refl
  where
    moved :
        Returns after_entry
        → let s' = (commit_effect a updates after_entry s).1 in
          IsValid s'.ledger × HasOneAuthority s'
    moved q = rw (commit_effect_completes a updates after_entry s known posted q) (
      v,
      record {
        pins =
            insert_all-pins s.authority updated s.intents
              (updated_intents-All s.authority updates s.intents updated h.pins known) h.pins;
        keys = insert_all-UniqueKeys updated s.intents h.keys;
      },
    )

    go :
        (hook : Hook)
        → after_entry ≡ hook
        → let s' = (commit_effect a updates after_entry s).1 in
          IsValid s'.ledger × HasOneAuthority s'
    go (raises e) q =
        rw (commit_effect_interrupted a updates after_entry s known posted q)
          (v, record { pins = h.pins; keys = h.keys })
    go absent q = moved (subst Returns (sym q) tt)
    go returns q = moved (subst Returns (sym q) tt)

pub commit_effect-keeps :
    (a : CommitArgs) (updates : List (String × IntentUpdate)) (after_entry : Hook) (s : Store)
    → IsValid s.ledger
    → HasOneAuthority s
    → let s' = (commit_effect a updates after_entry s).1 in IsValid s'.ledger × HasOneAuthority s'
commit_effect-keeps a updates after_entry s v h = go (updated_intents updates s.intents) refl
  where
    go :
        (r : Result (List (String × Intent)))
        → updated_intents updates s.intents ≡ r
        → let s' = (commit_effect a updates after_entry s).1 in
          IsValid s'.ledger × HasOneAuthority s'
    go (err e) q = rw (unknown_intent_refused a updates after_entry s q) (v, h)
    go (ok updated) q =
        commit_effect-keeps_known a updates after_entry s q (commit_once a s.ledger).0
          (commit_once a s.ledger).1 refl (commit_once-IsValid a s.ledger v) h
