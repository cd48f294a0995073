-- ===== src/Wallet/Holds.antt =====
-- ledger.py, spending.py and withdrawals.py: what becomes of a hold, and what heeds it.
use financial_engineering_sk.Prelude.{
  ◌≡◌, refl, List, [], ◌∷◌, String, ◌⧺◌, string_eq, Result, ok, err, err≢ok, unknown_hold, continue,
  modify, pure, Bool-cases, inl, inr,
}
use financial_engineering_sk.Prelude.Dict.{Dict, lookup, lookup-insert_self}
use financial_engineering_sk.Prelude.Int.{ℤ, pos, neg, leb_ℤ, ltb_ℤ}
use financial_engineering_sk.Ledger.Validate.{Totals, unbalanced_totals}
use financial_engineering_sk.Wallet.{
  LegArg, Hold, WalletLedger, captured, leg, post, live_hold, set_state, capture_hold, void_hold,
  post_net, approved, approve, is_booked, net_of, authorize, posted_balance,
}

-- The hold under this id is no longer live.
abbrev IsSpent : String → WalletLedger → Type 0
IsSpent hold_id w = live_hold (lookup hold_id w.holds) ≡ err unknown_hold

set_state-IsSpent :
    (hold_id : String) (h : Hold) (w : WalletLedger)
    → IsSpent hold_id (set_state hold_id h captured w)
set_state-IsSpent hold_id h w =
    rw (lookup-insert_self hold_id (record h { state = captured }) w.holds) refl

capture_hold-IsSpent :
    (hold_id destination : String) (w : WalletLedger)
    → (capture_hold hold_id destination w).0 ≡ ok tt
    → IsSpent hold_id (capture_hold hold_id destination w).1
unfolding capture_hold
capture_hold-IsSpent hold_id destination w h = go (live_hold (lookup hold_id w.holds)) h
  where
    moved :
        (h : Hold) (r : Result Unit × WalletLedger)
        → (continue r.0 (λ _. modify (set_state hold_id h captured)) r.1).0 ≡ ok tt
        → IsSpent hold_id (continue r.0 (λ _. modify (set_state hold_id h captured)) r.1).1
    moved h (ok _, w') q = set_state-IsSpent hold_id h w'
    moved h (err e, w') q = absurd (err≢ok q)

    go :
        (r : Result Hold)
        → let m =
            continue r
              (λ h w'.
                let (q, v) =
                  post
                    ("capture:" ⧺ hold_id)
                    (leg h.account (neg h.amount) h.currency
                      ∷ leg destination h.amount h.currency
                      ∷ [])
                    w' in
                continue q (λ _. modify (set_state hold_id h captured)) v)
              w in
          m.0 ≡ ok tt → IsSpent hold_id m.1
    go (err e) q = absurd (err≢ok q)
    go (ok h) q =
        moved h
          (post ("capture:" ⧺ hold_id)
            (leg h.account (neg h.amount) h.currency ∷ leg destination h.amount h.currency ∷ []) w)
          q

spent_is_unknown :
    (hold_id destination : String) (w : WalletLedger)
    → IsSpent hold_id w
    → (capture_hold hold_id destination w ≡ (err unknown_hold, w))
      × (void_hold hold_id w ≡ (err unknown_hold, w))
unfolding capture_hold void_hold
spent_is_unknown hold_id destination w h = (rw h refl, rw h refl)

-- A hold that was captured is neither captured again, to whichever destination, nor voided: both are
-- refused and change nothing.
pub captured_hold_is_spent :
    (hold_id destination another : String) (w : WalletLedger)
    → (capture_hold hold_id destination w).0 ≡ ok tt
    → let w' = (capture_hold hold_id destination w).1 in
      (capture_hold hold_id another w' ≡ (err unknown_hold, w'))
      × (void_hold hold_id w' ≡ (err unknown_hold, w'))
captured_hold_is_spent hold_id destination another w h =
    spent_is_unknown hold_id another (capture_hold hold_id destination w).1
      (capture_hold-IsSpent hold_id destination w h)

-- What a group answers depends on the legs that are booked, not on the holds.
post_net-answer :
    (txn_id : String) (legs : List LegArg) (holds : Dict String Hold) (w : WalletLedger)
    (t : Totals)
    → (continue
        (post_net txn_id legs t (record w { holds = holds })).0
        (λ _. pure approved)
        (post_net txn_id legs t (record w { holds = holds })).1).0
      ≡ (continue (post_net txn_id legs t w).0 (λ _. pure approved) (post_net txn_id legs t w).1).0
post_net-answer txn_id legs holds w [] = refl
post_net-answer txn_id legs holds w (e ∷ t) = refl

approve-answer :
    (txn_id : String) (legs : List LegArg) (holds : Dict String Hold) (w : WalletLedger)
    → (approve (post txn_id legs) (record w { holds = holds })).0 ≡ (approve (post txn_id legs) w).0
unfolding approve post
approve-answer txn_id legs holds w = elim (Bool-cases (is_booked txn_id w.legs)) [
  | inl e ↦ rw e refl
  | inr e ↦ rw e (post_net-answer txn_id legs holds w (unbalanced_totals (net_of legs [])))
]

-- Whether a card purchase is approved does not depend on the holds: money that a withdrawal has
-- reserved is answered for as if it were free.
pub purchases_ignore_holds :
    (account : String) (amount : ℤ) (currency txn_id merchant : String) (holds : Dict String Hold)
    (w : WalletLedger)
    → (authorize account amount currency txn_id merchant (record w { holds = holds })).0
      ≡ (authorize account amount currency txn_id merchant w).0
unfolding authorize posted_balance
purchases_ignore_holds account amount currency txn_id merchant holds w =
    elim (Bool-cases (leb_ℤ amount (pos 0))) [
      | inl e ↦ rw e refl
      | inr e ↦ elim (Bool-cases (ltb_ℤ (posted_balance account currency w) amount)) [
        | inl d ↦ rw (e, d) refl
        | inr d ↦
            rw (e, d)
              (approve-answer txn_id
                (leg account (neg amount) currency ∷ leg merchant amount currency ∷ []) holds w)
      ]
    ]
