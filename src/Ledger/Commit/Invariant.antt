-- ===== src/Ledger/Commit/Invariant.antt =====
-- What every ledger keeps: balanced entries, one entry for an effect, numbered entry ids.
use financial_engineering_sk.Prelude.{
  ℕ, ◌+◌, ◌≡◌, ◌≢◌, refl, sym, ap, ◌∙◌, subst, Bool, false, List, [], ◌∷◌, ◌++◌, none, some, String,
  ◌⧺◌, arith, ◌==◌, string_eq, Result, ok, find, All, All-append, length, and_then-eq-ok,
  ok-injective, ne_sound, Bool-cases, inl, inr,
}
use financial_engineering_sk.Prelude.Decimal.{decimal}
use financial_engineering_sk.Prelude.Text.{is_blank}
use financial_engineering_sk.Money.{validated_identifier}
use financial_engineering_sk.Money.Checks.{validated_identifier_iff}
use financial_engineering_sk.Ledger.Record.{
  Posting, Attribution, Fingerprint, Entry, Ledger, content_fingerprint,
}
use financial_engineering_sk.Ledger.Queries.{entry_for_effect}
use financial_engineering_sk.Ledger.Validate.{validated}
use financial_engineering_sk.Ledger.Validate.Balanced.{IsPostingSet, validated_iff}
use financial_engineering_sk.Ledger.Commit.{
  CommitArgs, checked, validated_attribution, new_entry, commit_once,
}
use financial_engineering_sk.Ledger.Commit.Outcomes.{
  Ended, refused, found, appended, commit_once-Ended,
}

-- An entry is well formed: a balanced posting set, named, and with a fingerprint of itself.
pub record IsEntry (e : Entry) : Type 0 where
  pub postings : IsPostingSet e.postings
  pub named : is_blank e.effect_id ≡ false
  pub referenced : is_blank e.reference ≡ false
  pub content :
      e.fingerprint
      ≡ content_fingerprint e.fingerprint.claim e.kind e.reference e.postings e.attribution
          e.corrects e.break_id

-- No entry is of this effect.
abbrev pub IsAbsent : String → List Entry → Type 0
IsAbsent x = All (λ (e : Entry). e.effect_id ≢ x)

abbrev pub UniqueEffects : List Entry → Type 0
UniqueEffects [] = Unit
UniqueEffects (e ∷ es) = IsAbsent e.effect_id es × UniqueEffects es

-- The entries are numbered in order, after the first `n`.
abbrev pub NumberedAfter : ℕ → List Entry → Type 0
NumberedAfter n [] = Unit
NumberedAfter n (e ∷ es) = (e.entry_id ≡ "e" ⧺ decimal (n + 1)) × NumberedAfter (n + 1) es

pub record IsValid (l : Ledger) : Type 0 where
  pub entries : All IsEntry l.entries
  pub effects : UniqueEffects l.entries
  pub numbers : NumberedAfter 0 l.entries

none≢some : {e : Entry} → some e ≡ none → ⊥
none≢some h = cc

find-IsAbsent :
    (x : String) (es : List Entry)
    → find (λ (e : Entry). e.effect_id == x) es ≡ none
    → IsAbsent x es
find-IsAbsent x [] h = tt
find-IsAbsent x (e ∷ es) h = elim (Bool-cases (e.effect_id == x)) [
  | inl same ↦ absurd (none≢some (rw same at h))
  | inr other ↦ (ne_sound e.effect_id x other, find-IsAbsent x es (rw other at h))
]

UniqueEffects-append :
    (es : List Entry) (e : Entry)
    → UniqueEffects es
    → IsAbsent e.effect_id es
    → UniqueEffects (es ++ e ∷ [])
UniqueEffects-append [] e u h = (tt, tt)
UniqueEffects-append (d ∷ es) e u h = (
  All-append (λ (c : Entry). c.effect_id ≢ d.effect_id) es (e ∷ []) (u.0, (λ p. h.0 (sym p), tt)),
  UniqueEffects-append es e u.1 h.1,
)

NumberedAfter-append :
    (n : ℕ) (es : List Entry) (e : Entry)
    → NumberedAfter n es
    → e.entry_id ≡ "e" ⧺ decimal (n + length es + 1)
    → NumberedAfter n (es ++ e ∷ [])
NumberedAfter-append n [] e h p = (p ∙ ap (λ (m : ℕ). "e" ⧺ decimal m) (omega arith), tt)
NumberedAfter-append n (d ∷ es) e h p =
    (h.0, NumberedAfter-append (n + 1) es e h.1 (p ∙ ap (λ (m : ℕ). "e" ⧺ decimal m) (omega arith)))

zero-add_one : (n : ℕ) → n + 1 ≡ 0 + n + 1
zero-add_one n = omega arith

-- What passes the checks.
pub record Passed (a : CommitArgs) (x : String) (f : Fingerprint) : Type 0 where
  pub effect : validated_identifier a.effect_id ≡ ok x
  pub reference : validated_identifier a.reference ≡ ok f.reference
  pub attribution : validated_attribution a.attribution ≡ ok f.attribution
  pub postings : validated a.postings ≡ ok f.postings
  pub content :
      f
      ≡ content_fingerprint a.claim a.kind f.reference f.postings f.attribution a.corrects
          a.break_id

from_checks :
    (a : CommitArgs) (x : String) (f : Fingerprint) (y r : String) (t : Attribution)
    (ps : List Posting)
    → validated_identifier a.effect_id ≡ ok y
    → validated_identifier a.reference ≡ ok r
    → validated_attribution a.attribution ≡ ok t
    → validated a.postings ≡ ok ps
    → ◌≡◌ {A = String × Fingerprint}
        (y, content_fingerprint a.claim a.kind r ps t a.corrects a.break_id)
        (x, f)
    → Passed a x f
from_checks a x f y r t ps hx hr ht hp made =
    subst (λ (p : String × Fingerprint). Passed a p.0 p.1) made
      (record { effect = hx; reference = hr; attribution = ht; postings = hp; content = refl })

pub checked-Passed :
    (a : CommitArgs) (x : String) (f : Fingerprint) → checked a ≡ ok (x, f) → Passed a x f
unfolding checked
checked-Passed a x f h =
    let (y, hx, r1) = and_then-eq-ok (validated_identifier a.effect_id) _ h in
    let (r, hr, r2) = and_then-eq-ok (validated_identifier a.reference) _ r1 in
    let (t, ht, r3) = and_then-eq-ok (validated_attribution a.attribution) _ r2 in
    let (ps, hp, made) = and_then-eq-ok (validated a.postings) _ r3 in
    from_checks a x f y r t ps hx hr ht hp (ok-injective made)

-- What passes the checks makes a well-formed entry.
new_entry-IsEntry :
    (a : CommitArgs) (l : Ledger) (x : String) (f : Fingerprint)
    → checked a ≡ ok (x, f)
    → IsEntry (new_entry a x f l)
unfolding new_entry
new_entry-IsEntry a l x f h =
    let p = checked-Passed a x f h in
    record {
      postings = ((validated_iff a.postings f.postings).0 p.postings).1;
      named = ((validated_identifier_iff a.effect_id x).0 p.effect).1;
      referenced = ((validated_identifier_iff a.reference f.reference).0 p.reference).1;
      content = refl;
    }

-- The invariant holds after every call, whatever its outcome.
pub commit_once-IsValid : (a : CommitArgs) (l : Ledger) → IsValid l → IsValid (commit_once a l).1
commit_once-IsValid a l v = keep (commit_once-Ended a l)
  where
    keep : {r : Result (Entry × Bool) × Ledger} → Ended a l r → IsValid r.1
    keep (refused e) = v
    keep (found x f e p q s) = v
    keep (appended x f p q) = record {
      entries =
          All-append IsEntry l.entries (new_entry a x f l ∷ [])
            (v.entries, (new_entry-IsEntry a l x f p, tt));
      effects =
          UniqueEffects-append l.entries (new_entry a x f l) v.effects
            (unfold entry_for_effect new_entry in find-IsAbsent x l.entries q);
      numbers =
          NumberedAfter-append 0 l.entries (new_entry a x f l) v.numbers
            (unfold new_entry in ap (λ (m : ℕ). "e" ⧺ decimal m) (zero-add_one (length l.entries)));
    }
