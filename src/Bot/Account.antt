-- ===== src/Bot/Account.antt =====
-- safe_bot.py: what an order holds of an asset, beside what the bot has reserved of it.
pub mod Letting
pub mod Unwound
pub mod Booked
pub mod Handled
pub mod Backing
pub mod Covered
pub mod Reserves
pub mod Fresh
pub mod Submitted
use financial_engineering_sk.Prelude.{
  ◌≡◌, refl, sym, ap, ◌∙◌, subst, string_eq, int_eq, ◌==◌, not, inl, inr, Bool, true, false, Option,
  none, some, String, ok, err, err≢ok, Exec, ◌>>=◌, ◌>>◌, Bool-cases, eq_sound,
}
use financial_engineering_sk.Prelude.Dict.{Dict, lookup, insert, lookup-insert}
use financial_engineering_sk.Prelude.Int.{ℤ, pos, neg, ◌+ℤ◌, ◌-ℤ◌, +ℤ-zero, zero-+ℤ, int_laws}
use financial_engineering_sk.Venue.Messages.{Market}
use financial_engineering_sk.Bot.State.{OrderRecord, Focus}
use financial_engineering_sk.Bot.Balances.{
  available, reserved, added, add_to, entry, edit, reserve, release, take_from,
}
use financial_engineering_sk.Bot.Holding.{value_or_zero}
use financial_engineering_sk.Bot.Triples.{
  Triple, bind-Triple, add_to-Seen, entry-Triple, raise_if-Triple, Seen,
}

abbrev pub part : Bool → ℤ → ℤ
part true x = x
part false x = pos 0

-- What the order holds of an asset, as collateral and as its fee.
unfoldable pub own : String → Market → OrderRecord → ℤ
own asset m r =
    part (m.collateral_asset == asset) r.reserved_micro
    +ℤ part (m.fee_asset == asset) r.fee_reserved_micro

pub part_add : (b : Bool) (x y : ℤ) → part b (x +ℤ y) ≡ part b x +ℤ part b y
part_add true x y = refl
part_add false x y = sym (zero-+ℤ (pos 0))

module _ (asset : String) (m : Market) (orders : Dict String OrderRecord) where
  -- While a method works on the order `r`, `v` is reserved of the asset.
  abbrev pub Level : OrderRecord → ℤ → Focus → Type 0
  Level r v = Seen λ market held order kept.
      (market ≡ m) × (held ≡ orders) × (order ≡ r) × (value_or_zero (lookup asset kept) ≡ v)

  -- What is reserved of the asset is what the order holds of it, and `others` besides.
  abbrev pub Balanced : ℤ → Focus → Type 0
  Balanced others = Seen λ market held order kept.
      (market ≡ m)
      × (held ≡ orders)
      × (value_or_zero (lookup asset kept) ≡ others +ℤ own asset m order)

  reserved_after :
      (key : String) (x v w : ℤ) (d : Dict String ℤ)
      → lookup key d ≡ some v
      → value_or_zero (lookup asset d) ≡ w
      → value_or_zero (lookup asset (insert key (v +ℤ x) d)) ≡ w +ℤ part (key == asset) x
  reserved_after key x v w d found h = elim (Bool-cases (key == asset)) [
    | inl same ↦
        let here : value_or_zero (lookup asset d) ≡ v =
          subst (λ (k : String). value_or_zero (lookup k d) ≡ v) (eq_sound key asset same)
            (ap value_or_zero found) in
        rw (lookup-insert key asset (v +ℤ x) d, same) (ap (λ (n : ℤ). n +ℤ x) (sym here ∙ h))
    | inr other ↦ rw (lookup-insert key asset (v +ℤ x) d, other) (h ∙ sym (+ℤ-zero w))
  ]

  added-Level :
      (r : OrderRecord) (key : String) (x w : ℤ) (f : Focus) (o : Option ℤ)
      → lookup key f.book.reserved ≡ o
      → Level r w f
      → (a : Unit {0}) → (added reserved key x o f).0 ≡ ok a
      → Level r (w +ℤ part (key == asset) x) (added reserved key x o f).1
  added-Level r key x w f none q p a h = absurd (err≢ok h)
  added-Level r key x w f (some n) q (e, o, i, l) a h =
      (e, o, i, reserved_after key x n w f.book.reserved q l)

  pub reserved-Level :
      (r : OrderRecord) (key : String) (x w : ℤ)
      → Triple (Level r w) (add_to reserved key x) (Level r (w +ℤ part (key == asset) x))
  unfolding add_to
  reserved-Level r key x w = record {
    run = λ f. added-Level r key x w f (lookup key f.book.reserved) refl;
  }

  pub release-Level :
      (r : OrderRecord) (key : String) (x w : ℤ)
      → Triple (Level r w) (release key x) (Level r (w +ℤ part (key == asset) (neg x)))
  unfolding release
  release-Level r key x w =
      bind-Triple _ _ _ _ _ (reserved-Level r key (neg x) w) (λ a. add_to-Seen _ available key x tt)

  pub reserve-Level :
      (r : OrderRecord) (key : String) (x w : ℤ)
      → Triple (Level r w) (reserve key x) (Level r (w +ℤ part (key == asset) x))
  unfolding reserve
  reserve-Level r key x w =
      bind-Triple _ (Level r w) _ _ _ (entry-Triple (Level r w) available key) (λ held.
        bind-Triple _ (Level r w) _ _ _ (raise_if-Triple (Level r w) _ _) (λ a.
          bind-Triple _ (Level r w) _ _ _ (add_to-Seen _ available key (neg x) tt)
            (λ a. reserved-Level r key x w)))

  pub edit-Level :
      (r : OrderRecord) (note : OrderRecord → OrderRecord) (w : ℤ)
      → Triple (Level r w) (edit note) (Level (note r) w)
  edit-Level r note w = record { run = λ f (e, o, i, l) a h. (e, o, ap note i, l) }
