-- ===== src/Bot/Triples.antt =====
-- safe_bot.py: what holds after a method of an order that raises nothing.
use financial_engineering_sk.Prelude.{
  ◌≡◌, ◌≢◌, refl, sym, ap, ◌∙◌, not, eq_sound, int_eq, string_eq, ◌==◌, inl, inr, Bool, true, false,
  Option, none, some, String, Error, Result, ok, err, err≢ok, Exec, continue, raise_if, lift, ◌>>=◌,
  Bool-cases,
}
use financial_engineering_sk.Prelude.Dict.{Dict, lookup}
use financial_engineering_sk.Prelude.Int.{ℤ, pos}
use financial_engineering_sk.Venue.Messages.{Market}
use financial_engineering_sk.Bot.State.{OrderRecord, Focus}
use financial_engineering_sk.Bot.Balances.{
  Column, available, reserved, fees_paid, positions, locked, column, entry, added, add_to,
}
use financial_engineering_sk.Bot.Holds.{when, when_set}

true≢false : true ≢ false
true≢false h = cc

-- From a state with `P`, a method that raises nothing leaves one with `Q`.
pub record Triple {S A : Type 0} (P : S → Type 0) (m : Exec S A) (Q : S → Type 0) : Type 0 where
  pub run : (s : S) → P s → (a : A) → (m s).0 ≡ ok a → Q (m s).1

pub bind-Triple :
    {S A B : Type 0} (P Q T : S → Type 0) (m : Exec S A) (k : A → Exec S B)
    → Triple P m Q
    → ((a : A) → Triple Q (k a) T)
    → Triple P (m >>= k) T
bind-Triple {S} {A} {B} P Q T m k first then = record {
  run = λ s p b h. after (m s).0 (m s).1 b (λ a e. first.run s p a e) h;
}
  where
    after :
        (r : Result A) (t : S) (b : B)
        → ((a : A) → r ≡ ok a → Q t)
        → (continue r k t).0 ≡ ok b
        → T (continue r k t).1
    after (ok a) t b q h = (then a).run t (q a refl) b h
    after (err e) t b q h = absurd (err≢ok h)

-- A method that changes no state, whatever it answers.
pub lift-Triple : {S A : Type 0} (P : S → Type 0) (r : Result A) → Triple P (lift r) P
lift-Triple P r = record { run = λ s p a h. p }

pub raise_if-Triple :
    {S : Type 0} (P : S → Type 0) (test : Bool) (e : Error) → Triple P (raise_if {S = S} test e) P
raise_if-Triple P true e = record { run = λ s p a h. absurd (err≢ok h) }
raise_if-Triple P false e = record { run = λ s p a h. p }

when_at :
    (P Q : Focus → Type 0) (test : Bool) (m : Exec Focus Unit) (f : Focus)
    → Triple P m Q
    → (test ≡ false → P f → Q f)
    → P f
    → (a : Unit {0}) → (when test m f).0 ≡ ok a
    → Q (when test m f).1
when_at P Q true m f does skips p a h = does.run f p a h
when_at P Q false m f does skips p a h = skips refl p

pub when-Triple :
    (P Q : Focus → Type 0) (test : Bool) (m : Exec Focus Unit)
    → Triple P m Q
    → (test ≡ false → (f : Focus) → P f → Q f)
    → Triple P (when test m) Q
when-Triple P Q test m does skips = record { run = λ f. when_at P Q test m f does (λ t. skips t f) }

was_zero : (x : ℤ) → not (x == pos 0) ≡ false → x ≡ pos 0
was_zero x h = elim (Bool-cases (x == pos 0)) [
  | inl e ↦ eq_sound x (pos 0) e
  | inr e ↦ absurd (true≢false (sym (ap not e) ∙ h))
]

pub when_set-Triple :
    (P Q : Focus → Type 0) (field : OrderRecord → ℤ) (m : Exec Focus Unit)
    → Triple P m Q
    → ((f : Focus) → field f.order ≡ pos 0 → P f → Q f)
    → Triple P (when_set field m) Q
when_set-Triple P Q field m does skips = record {
  run = λ f.
      when_at P Q (not (field f.order == pos 0)) m f does
        (λ t. skips f (was_zero (field f.order) t));
}

-- What the account of the holds is made of: the market, the orders on file, the order at hand and
-- the dict of what is reserved.
abbrev pub Seen :
    (Market → Dict String OrderRecord → OrderRecord → Dict String ℤ → Type 0) → Focus → Type 0
Seen Q f = Q f.book.market f.book.orders f.order f.book.reserved

abbrev pub IsOther : Column → Type 0
IsOther reserved = ⊥
IsOther _ = Unit

module _ (Q : Market → Dict String OrderRecord → OrderRecord → Dict String ℤ → Type 0) where
  added-Seen :
      (c : Column) (key : String) (x : ℤ) (o : Option ℤ)
      → IsOther c
      → Triple (Seen Q) (added c key x o) (Seen Q)
  added-Seen c key x none h = record { run = λ f p a e. absurd (err≢ok e) }
  added-Seen available key x (some v) h = record { run = λ f p a e. p }
  added-Seen reserved key x (some v) h = absurd h
  added-Seen fees_paid key x (some v) h = record { run = λ f p a e. p }
  added-Seen positions key x (some v) h = record { run = λ f p a e. p }
  added-Seen locked key x (some v) h = record { run = λ f p a e. p }

  pub add_to-Seen :
      (c : Column) (key : String) (x : ℤ) → IsOther c → Triple (Seen Q) (add_to c key x) (Seen Q)
  unfolding add_to
  add_to-Seen c key x h = record {
    run = λ f. (added-Seen c key x (lookup key (column c f.book)) h).run f;
  }

pub entry-Triple : (P : Focus → Type 0) (c : Column) (key : String) → Triple P (entry c key) P
unfolding entry
entry-Triple P c key = record { run = λ f p a h. p }
