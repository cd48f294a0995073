-- ===== src/Ledger/History.antt =====
-- A ledger over time: `commit_once` is the only method that writes, and its lock makes each call
-- one step, so a history is a list of calls in the order in which they took the lock.
use financial_engineering_sk.Prelude.{
  ◌≡◌, ◌≢◌, refl, sym, ap, ◌∙◌, subst, Bool, false, List, [], ◌∷◌, ◌++◌, none, some, String, arith,
  ◌==◌, string_eq, Result, Error, ok, err, effect_conflict, find, ok-first, err≢ok, eq_self,
}
use mathlib.Core.List.{append-nil, append_assoc}
use financial_engineering_sk.Ledger.Record.{Fingerprint, Entry, Ledger, empty_ledger}
use financial_engineering_sk.Ledger.Queries.{entry_for_effect}
use financial_engineering_sk.Ledger.Commit.{CommitArgs, checked, new_entry, commit_once}
use financial_engineering_sk.Ledger.Commit.Outcomes.{
  Ended, refused, found, appended, commit_once-Ended, commit_once-present, commit_once-conflict,
}
use financial_engineering_sk.Ledger.Commit.Invariant.{IsValid, commit_once-IsValid}

-- The ledger after a list of calls, whatever each returned or raised.
unfoldable pub replay : List CommitArgs → Ledger → Ledger
replay [] l = l
replay (a ∷ calls) l = replay calls (commit_once a l).1

pub empty_ledger-IsValid : IsValid empty_ledger
empty_ledger-IsValid = record { entries = tt; effects = tt; numbers = tt }

pub replay-IsValid : (calls : List CommitArgs) (l : Ledger) → IsValid l → IsValid (replay calls l)
unfolding replay
replay-IsValid [] l v = v
replay-IsValid (a ∷ calls) l v =
    replay-IsValid calls (commit_once a l).1 (commit_once-IsValid a l v)

-- A call that raises has written nothing.
pub commit_once_atomic :
    (a : CommitArgs) (l : Ledger) {e : Error}
    → (commit_once a l).0 ≡ err e
    → (commit_once a l).1 ≡ l
commit_once_atomic a l h = go (commit_once-Ended a l) h
  where
    go : {e : Error} {r : Result (Entry × Bool) × Ledger} → Ended a l r → r.0 ≡ err e → r.1 ≡ l
    go (refused d) h = refl
    go (found x f d p q s) h = refl
    go (appended x f p q) h = cc

-- Calls only append: the entries before stay, in their order, before any new ones.
pub replay_appends :
    (calls : List CommitArgs) (l : Ledger)
    → (more : List Entry) × ((replay calls l).entries ≡ l.entries ++ more)
unfolding replay
replay_appends [] l = ([], sym (append-nil l.entries))
replay_appends (a ∷ calls) l =
    let (more, later) = replay_appends calls (commit_once a l).1 in
    let (first, now) = step (commit_once-Ended a l) in
    (
      first ++ more,
      later ∙ ap (λ (es : List Entry). es ++ more) now ∙ append_assoc l.entries first more,
    )
  where
    step :
        {r : Result (Entry × Bool) × Ledger}
        → Ended a l r
        → (more : List Entry) × (r.1.entries ≡ l.entries ++ more)
    step (refused d) = ([], sym (append-nil l.entries))
    step (found x f d p q s) = ([], sym (append-nil l.entries))
    step (appended x f p q) = (new_entry a x f l ∷ [], refl)

-- An effect that is found stays found when entries are appended.
find-append {ℓ} :
    {A : Type ℓ} (test : A → Bool) (xs ys : List A) (x : A)
    → find test xs ≡ some x
    → find test (xs ++ ys) ≡ some x
find-append test [] ys x h = cc
find-append test (y ∷ xs) ys x h = ground (arith, find-append test xs ys x)

find-append_new {ℓ} :
    {A : Type ℓ} (test : A → Bool) (xs ys : List A)
    → find test xs ≡ none
    → find test (xs ++ ys) ≡ find test ys
find-append_new test [] ys h = refl
find-append_new test (y ∷ xs) ys h = ground (arith, find-append_new test xs ys)

pub entry_for_effect-append :
    (x : String) (l : Ledger) (more : List Entry) (e : Entry)
    → entry_for_effect x l ≡ some e
    → entry_for_effect x (record { entries = l.entries ++ more }) ≡ some e
unfolding entry_for_effect
entry_for_effect-append x l more e h =
    find-append (λ (d : Entry). d.effect_id == x) l.entries more e h

pub entry_for_effect-replay :
    (x : String) (calls : List CommitArgs) (l : Ledger) (e : Entry)
    → entry_for_effect x l ≡ some e
    → entry_for_effect x (replay calls l) ≡ some e
entry_for_effect-replay x calls l e h =
    let (more, same) = replay_appends calls l in
    subst (λ (es : List Entry). entry_for_effect x (record { entries = es }) ≡ some e) (sym same)
      (entry_for_effect-append x l more e h)

-- After a call that returned, its effect is found, with the content that the call carried.
record IsRecorded (a : CommitArgs) (e : Entry) (l : Ledger) : Type 0 where
  x : String
  passed : checked a ≡ ok (x, e.fingerprint)
  present : entry_for_effect x l ≡ some e

entry_for_effect-new :
    (a : CommitArgs) (l : Ledger) (x : String) (f : Fingerprint)
    → entry_for_effect x l ≡ none
    → entry_for_effect x (record { entries = l.entries ++ new_entry a x f l ∷ [] })
      ≡ some (new_entry a x f l)
unfolding entry_for_effect
entry_for_effect-new a l x f h =
    find-append_new (λ (d : Entry). d.effect_id == x) l.entries (new_entry a x f l ∷ []) h
    ∙ unfold new_entry in rw (eq_self x) refl

commit_once-IsRecorded :
    (a : CommitArgs) (l : Ledger) (e : Entry) (b : Bool)
    → (commit_once a l).0 ≡ ok (e, b)
    → IsRecorded a e (commit_once a l).1
commit_once-IsRecorded a l e b h = go (commit_once-Ended a l) h
  where
    go : {r : Result (Entry × Bool) × Ledger} → Ended a l r → r.0 ≡ ok (e, b) → IsRecorded a e r.1
    go (refused d) q = absurd (err≢ok q)
    go (found x f d p m s) q =
        subst (λ (c : Entry). IsRecorded a c l) (ok-first q)
          (record { x = x; passed = rw s p; present = m })
    go (appended x f p m) q =
        subst
          (λ (c : Entry). IsRecorded a c (record { entries = l.entries ++ new_entry a x f l ∷ [] }))
          (ok-first q)
          (record {
            x = x;
            passed = unfold new_entry in p;
            present = entry_for_effect-new a l x f m;
          })

-- A retry posts nothing: after a call that returned an entry, and whatever calls came between, a
-- call with the same effect and the same content returns that entry, reports that it applied
-- nothing, and leaves the ledger alone.
pub retry_applies_nothing :
    (a again : CommitArgs) (between : List CommitArgs) (l : Ledger) (e : Entry) (b : Bool)
    → (commit_once a l).0 ≡ ok (e, b)
    → checked again ≡ checked a
    → commit_once again (replay between (commit_once a l).1)
      ≡ (ok (e, false), replay between (commit_once a l).1)
retry_applies_nothing a again between l e b h same =
    let r = commit_once-IsRecorded a l e b h in
    let later = replay between (commit_once a l).1 in
    commit_once-present again later (same ∙ r.passed)
      (entry_for_effect-replay r.x between (commit_once a l).1 e r.present) refl

-- One effect identity never answers for two contents: after a call that returned an entry, and
-- whatever calls came between, a call with the same effect and another content is refused and
-- leaves the ledger alone.
pub changed_content_refused :
    (a other : CommitArgs) (between : List CommitArgs) (l : Ledger) (e : Entry) (b : Bool)
    (x : String) (f : Fingerprint)
    → (commit_once a l).0 ≡ ok (e, b)
    → checked a ≡ ok (x, e.fingerprint)
    → checked other ≡ ok (x, f)
    → f ≢ e.fingerprint
    → commit_once other (replay between (commit_once a l).1)
      ≡ (err effect_conflict, replay between (commit_once a l).1)
changed_content_refused a other between l e b x f h ha ho ne =
    let r = commit_once-IsRecorded a l e b h in
    let later = replay between (commit_once a l).1 in
    let x_path : r.x ≡ x = ok-first (sym r.passed ∙ ha) in
    commit_once-conflict other later ho
      (subst (λ (y : String). entry_for_effect y later ≡ some e) x_path
        (entry_for_effect-replay r.x between (commit_once a l).1 e r.present))
      (λ p. ne (sym p))
