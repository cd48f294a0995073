-- ===== src/Bot/Holding.antt =====
-- safe_bot.py: `_hold` takes everything that an order can owe, or nothing at all.
use financial_engineering_sk.Prelude.{
  ◌≡◌, ◌≢◌, ◌⊎◌, inl, inr, refl, sym, ◌∙◌, subst, ◌==◌, string_eq, int_eq, true, false, Option,
  none, some, String, ok, Bool-cases, eq_sound, ne_test,
}
use financial_engineering_sk.Prelude.Dict.{lookup, insert, lookup-insert, lookup-insert_self}
use financial_engineering_sk.Prelude.Int.{ℤ, pos, neg, ◌+ℤ◌, ltb_ℤ, int_laws}
use financial_engineering_sk.Bot.State.{Focus}
use financial_engineering_sk.Bot.Balances.{Column, available, reserved, column, reserve}

abbrev pub value_or_zero : Option ℤ → ℤ
value_or_zero none = pos 0
value_or_zero (some v) = v

-- What the dict has under a name, or nothing.
abbrev pub amount : Column → String → Focus → ℤ
amount c key f = value_or_zero (lookup key (column c f.book))

abbrev pub total : String → Focus → ℤ
total asset f = amount available asset f +ℤ amount reserved asset f

-- There is enough to reserve `x` of the asset.
pub record Funded (asset : String) (x : ℤ) (f : Focus) : Type 0 where
  pub held : ℤ
  pub kept : ℤ
  pub is_held : lookup asset f.book.available ≡ some held
  pub is_kept : lookup asset f.book.reserved ≡ some kept
  pub enough : ltb_ℤ held x ≡ false

abbrev pub after_reserve : String → ℤ → ℤ → ℤ → Focus → Focus
after_reserve asset x held kept f = record f {
  book = record f.book {
    available = insert asset (held +ℤ neg x) f.book.available;
    reserved = insert asset (kept +ℤ x) f.book.reserved;
  };
}

pub reserve-Funded :
    (asset : String) (x : ℤ) (f : Focus) (h : Funded asset x f)
    → reserve asset x f ≡ (ok tt, after_reserve asset x h.held h.kept f)
unfolding reserve
reserve-Funded asset x f h = rw (h.is_held, h.enough, h.is_held, h.is_kept) refl

-- What reserving moves: nothing but `x` of the one asset, from one dict to the other.
pub record Moves (asset : String) (x : ℤ) (f f' : Focus) : Type 0 where
  pub total_stays : (k : String) → total k f' ≡ total k f
  pub is_reserved : amount reserved asset f' ≡ amount reserved asset f +ℤ x
  pub others_stay :
      (k : String) → k ≢ asset → lookup k f'.book.available ≡ lookup k f.book.available
  pub others_kept : (k : String) → k ≢ asset → lookup k f'.book.reserved ≡ lookup k f.book.reserved

shift : (a b x : ℤ) → (a +ℤ neg x) +ℤ (b +ℤ x) ≡ a +ℤ b
shift a b x = omega int_laws

pub after_reserve-Moves :
    (asset : String) (x : ℤ) (f : Focus) (h : Funded asset x f)
    → Moves asset x f (after_reserve asset x h.held h.kept f)
after_reserve-Moves asset x f h = record {
  total_stays = λ k. stays k (Bool-cases (asset == k));
  is_reserved = rw (lookup-insert_self asset (h.kept +ℤ x) f.book.reserved, h.is_kept) refl;
  others_stay = λ k differs.
      lookup-insert asset k _ f.book.available ∙ rw (ne_test asset k (λ q. differs (sym q))) refl;
  others_kept = λ k differs.
      lookup-insert asset k _ f.book.reserved ∙ rw (ne_test asset k (λ q. differs (sym q))) refl;
}
  where
    stays :
        (k : String)
        → ((asset == k) ≡ true) ⊎ ((asset == k) ≡ false)
        → total k (after_reserve asset x h.held h.kept f) ≡ total k f
    stays k (inl same) =
        subst (λ (j : String). total j (after_reserve asset x h.held h.kept f) ≡ total j f)
          (eq_sound asset k same)
          (rw
            (
              lookup-insert_self asset (h.held +ℤ neg x) f.book.available,
              lookup-insert_self asset (h.kept +ℤ x) f.book.reserved,
              h.is_held,
              h.is_kept,
            )
            (shift h.held h.kept x))
    stays k (inr other) =
        rw
          (
            lookup-insert asset k (h.held +ℤ neg x) f.book.available,
            lookup-insert asset k (h.kept +ℤ x) f.book.reserved,
            other,
          )
          refl
