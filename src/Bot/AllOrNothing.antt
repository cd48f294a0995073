-- ===== src/Bot/AllOrNothing.antt =====
-- safe_bot.py: the checks of `_hold`, and that a refusal leaves no hold standing.
use financial_engineering_sk.Prelude.{
  ◌≡◌, ◌≢◌, ◌⊎◌, inl, inr, refl, sym, ◌==◌, string_eq, int_eq, not, ◌&&◌, true, false, [], ◌∷◌,
  Option, none, some, String, Result, Error, ok, err, err≢ok, continue, ◌>>◌, key_error,
  unknown_fee_asset, insufficient_available, All, Bool-cases, ne_test, by_key, All-unsorted,
}
use financial_engineering_sk.Prelude.Dict.{Dict, lookup, insert}
use financial_engineering_sk.Prelude.Int.{ℤ, pos, ◌+ℤ◌, ◌-ℤ◌, ltb_ℤ, zero-+ℤ}
use financial_engineering_sk.Venue.Messages.{Market, sell}
use financial_engineering_sk.Bot.State.{Book, Focus}
use financial_engineering_sk.Bot.Balances.{entry}
use financial_engineering_sk.Bot.Holds.{
  collateral_obligation, worst_case_fee_micro, when, take_holds, check_holds, check_shares, hold,
  add_need, needs_of, check_needs, covers, has_entry, both, need_so_far,
}
use financial_engineering_sk.Bot.Holding.{Funded}
use financial_engineering_sk.Bot.Whole.{Free, Whole, take-Whole}

-- The checks change nothing: they refuse, or they have found what the holds need.
abbrev IsChecked : String → ℤ → ℤ → Focus → Result (Unit {0}) × Focus → Type 0
IsChecked side x y f r =
    ((e : Error) × (r ≡ (err e, f)))
    ⊎ ((r ≡ (ok tt, f))
        × (check_needs f.book.available (needs_of f.book.market x y) ≡ ok tt)
        × ((side == sell) ≡ true → Free f))

-- The check of the shares, by what is held and locked.
abbrev FreeOr : Focus → Result (Unit {0}) × Focus → Type 0
FreeOr f r = ((e : Error) × (r ≡ (err e, f))) ⊎ ((r ≡ (ok tt, f)) × Free f)

shares_checked :
    (f : Focus) (held taken : Option ℤ)
    → lookup f.order.outcome f.book.positions ≡ held
    → lookup f.order.outcome f.book.locked ≡ taken
    → FreeOr f (check_shares f)
unfolding entry
shares_checked f none taken p q = inl (key_error, rw p refl)
shares_checked f (some held) none p q = inl (key_error, rw (p, q) refl)
shares_checked f (some held) (some taken) p q =
    elim (Bool-cases (ltb_ℤ (held -ℤ taken) f.order.qty)) [
      | inl short ↦ inl (insufficient_available, rw (p, q, short) refl)
      | inr enough ↦ inr (
        rw (p, q, enough) refl,
        record { held = held; taken = taken; is_held = p; is_taken = q; enough = enough },
      )
    ]

side_checked :
    (side : String) (f : Focus)
    → ((e : Error) × (when (side == sell) check_shares f ≡ (err e, f)))
      ⊎ ((when (side == sell) check_shares f ≡ (ok tt, f)) × ((side == sell) ≡ true → Free f))
side_checked side f = elim (Bool-cases (side == sell)) [
  | inr no_sale ↦ inr (rw no_sale refl, λ sale. cc)
  | inl sale ↦ elim (shares_checked f _ _ refl refl) [
    | inl (e, q) ↦ inl (e, rw sale q)
    | inr (q, free) ↦ inr (rw sale q, λ t. free)
  ]
]

needs-IsChecked :
    (side : String) (x y : ℤ) (f : Focus) (r : Result (Unit {0}))
    → check_needs f.book.available (needs_of f.book.market x y) ≡ r
    → IsChecked side x y f (continue r (λ _. when (side == sell) check_shares) f)
needs-IsChecked side x y f (err e) h = inl (e, refl)
needs-IsChecked side x y f (ok _) h = elim (side_checked side f) [
  | inl (e, q) ↦ inl (e, q)
  | inr (q, free) ↦ inr (q, h, free)
]

check_holds-IsChecked :
    (side : String) (x y : ℤ) (f : Focus) → IsChecked side x y f (check_holds side x y f)
unfolding check_holds
check_holds-IsChecked side x y f =
    elim (Bool-cases
      (not (y == pos 0) && not (has_entry (lookup f.book.market.fee_asset f.book.available)))) [
        | inl e ↦ inl (unknown_fee_asset, rw e refl)
        | inr e ↦ rw e (needs-IsChecked side x y f _ refl)
      ]

-- Every need that was checked is covered.
CoveredAmount : Dict String ℤ → String × ℤ → Type 0
CoveredAmount held (asset, x) = covers x (lookup asset held) ≡ ok tt

both-eq-ok : (r s : Result (Unit {0})) → both r s ≡ ok tt → (r ≡ ok tt) × (s ≡ ok tt)
both-eq-ok (err e) s h = absurd (err≢ok h)
both-eq-ok (ok tt) s h = (refl, h)

needs_covered :
    (held needs : Dict String ℤ) → check_needs held needs ≡ ok tt → All (CoveredAmount held) needs
unfolding CoveredAmount
needs_covered held [] h = tt
needs_covered held ((asset, x) ∷ needs) h =
    let (now, later) = both-eq-ok (covers x (lookup asset held)) (check_needs held needs) h in
    (now, needs_covered held needs later)

covers-enough :
    (x : ℤ) (o : Option ℤ)
    → covers x o ≡ ok tt
    → (held : ℤ) × (o ≡ some held) × (ltb_ℤ held x ≡ false)
covers-enough x none h = absurd (err≢ok h)
covers-enough x (some held) h = elim (Bool-cases (ltb_ℤ held x)) [
  | inl short ↦ absurd (err≢ok (rw short at h))
  | inr enough ↦ (held, refl, enough)
]

module _ (m : Market) (x y : ℤ) (held : Dict String ℤ)
    (two_assets : m.fee_asset ≢ m.collateral_asset) where
  abbrev first_need : Dict String ℤ
  first_need = (m.collateral_asset, pos 0 +ℤ x) ∷ []

  other_key : (m.collateral_asset == m.fee_asset) ≡ false
  other_key = ne_test m.collateral_asset m.fee_asset (λ q. two_assets (sym q))

  needs :
      All (CoveredAmount held) (needs_of m x y)
      → All (CoveredAmount held) (add_need m.fee_asset y (add_need m.collateral_asset x []))
  needs =
      All-unsorted (CoveredAmount held) by_key
        (add_need m.fee_asset y (add_need m.collateral_asset x []))

  collateral_covered :
      All (CoveredAmount held) (needs_of m x y)
      → (x == pos 0) ≡ false
      → covers x (lookup m.collateral_asset held) ≡ ok tt
  unfolding CoveredAmount
  collateral_covered h some_x = go (Bool-cases (y == pos 0)) (rw some_x at (needs h))
    where
      go :
          ((y == pos 0) ≡ true) ⊎ ((y == pos 0) ≡ false)
          → All (CoveredAmount held) (add_need m.fee_asset y first_need)
          → covers x (lookup m.collateral_asset held) ≡ ok tt
      go (inl no_fee) k = rw (← zero-+ℤ x) (rw no_fee at k).0
      go (inr fee) k = rw (← zero-+ℤ x) (rw (fee, other_key) at k).0

  fee_covered :
      All (CoveredAmount held) (needs_of m x y)
      → (y == pos 0) ≡ false
      → covers y (lookup m.fee_asset held) ≡ ok tt
  unfolding CoveredAmount
  fee_covered h some_y = go (Bool-cases (x == pos 0)) (rw some_y at (needs h))
    where
      go :
          ((x == pos 0) ≡ true) ⊎ ((x == pos 0) ≡ false)
          → All (CoveredAmount held) (
              insert m.fee_asset
                (need_so_far (lookup m.fee_asset (add_need m.collateral_asset x [])) +ℤ y)
                (add_need m.collateral_asset x []))
          → covers y (lookup m.fee_asset held) ≡ ok tt
      go (inl no_collateral) k = rw (← zero-+ℤ y) (rw no_collateral at k).0
      go (inr collateral) k = rw (← zero-+ℤ y) (rw (collateral, other_key) at k).1.0

-- The book keeps a balance of reserves for each of the market's two assets, which are not the same.
pub record HasReserves (b : Book) : Type 0 where
  pub collateral_kept : ℤ
  pub fee_kept : ℤ
  pub keeps_collateral : lookup b.market.collateral_asset b.reserved ≡ some collateral_kept
  pub keeps_fee : lookup b.market.fee_asset b.reserved ≡ some fee_kept
  pub two_assets : b.market.fee_asset ≢ b.market.collateral_asset

funded :
    (asset : String) (x kept : ℤ) (f : Focus)
    → covers x (lookup asset f.book.available) ≡ ok tt
    → lookup asset f.book.reserved ≡ some kept
    → Funded asset x f
funded asset x kept f h k =
    let (held, is_held, enough) = covers-enough x (lookup asset f.book.available) h in
    record { held = held; kept = kept; is_held = is_held; is_kept = k; enough = enough }

-- All or nothing: with what an order of these terms can owe.
abbrev pub AllOrNothing : ℤ → ℤ → Focus → Result (Unit {0}) × Focus → Type 0
AllOrNothing x y f r =
    ((e : Error) × (r ≡ (err e, f))) ⊎ ((f' : Focus) × (r ≡ (ok tt, f')) × Whole x y f f')

holds_taken :
    (side : String) (x y : ℤ) (f : Focus)
    → HasReserves f.book
    → AllOrNothing x y f ((check_holds side x y >> take_holds side x y) f)
holds_taken side x y f h = elim (check_holds-IsChecked side x y f) [
  | inl (e, q) ↦ inl (e, rw q refl)
  | inr (q, needs, free) ↦
      let all = needs_covered f.book.available (needs_of f.book.market x y) needs in
      let (f', runs, whole) =
        take-Whole side x y f h.two_assets
          (λ n.
            funded f.book.market.collateral_asset x h.collateral_kept f
              (collateral_covered f.book.market x y f.book.available h.two_assets all n)
              h.keeps_collateral)
          (λ n.
            funded f.book.market.fee_asset y h.fee_kept f
              (fee_covered f.book.market x y f.book.available h.two_assets all n) h.keeps_fee)
          free in
      inr (f', rw q runs, whole)
]

-- In a book that keeps reserves in two different assets for collateral and fees, holding what an order
-- can owe raises and leaves everything as it was, or it returns: then the reserve of the collateral
-- has grown by the order's obligation, that of the fee asset by the worst fee, and in every asset
-- what is available and what is reserved come to the same sum as before.
pub hold-AllOrNothing :
    (f : Focus)
    → HasReserves f.book
    → AllOrNothing
        (collateral_obligation f.order.side f.order.qty f.order.price_micro)
        (worst_case_fee_micro f.book.market f.order.side f.order.qty f.order.price_micro)
        f
        (hold f)
unfolding hold
hold-AllOrNothing f h =
    holds_taken f.order.side (collateral_obligation f.order.side f.order.qty f.order.price_micro)
      (worst_case_fee_micro f.book.market f.order.side f.order.qty f.order.price_micro) f h
