-- ===== src/Wallet/Books.antt =====
-- ledger.py: what all operations together keep of the wallet's books.
use financial_engineering_sk.Prelude.{
  ◌≡◌, refl, sym, ◌∙◌, List, [], ◌∷◌, ◌++◌, String, ◌⧺◌, ◌==◌, string_eq, arith, if◌then◌else◌,
  Result, ok, err, continue, modify, pure, Bool-cases, inl, inr, sorted, by_key, All-unsorted,
}
use financial_engineering_sk.Prelude.Dict.{lookup}
use financial_engineering_sk.Prelude.Int.{
  ℤ, pos, neg, ◌+ℤ◌, +ℤ_assoc, zero-+ℤ, +ℤ-zero, leb_ℤ, ltb_ℤ,
}
use financial_engineering_sk.Ledger.Validate.{Totals, add_total, unbalanced_totals}
use financial_engineering_sk.Ledger.Validate.Totals.{
  total_of, total_of-add_total, total_of_zero, nothing_kept,
}
use financial_engineering_sk.Wallet.{
  LegArg, Leg, Hold, WalletLedger, is_booked, net_of, book, post_net, post, leg, live_hold,
  set_state, captured, voided, approved, pending, posted_balance, available, place_hold,
  capture_hold, void_hold, approve, authorize, hold_for, request_withdrawal, is_held,
  settle_withdrawal, cancel_withdrawal,
}

-- The sum of the legs in one currency.
unfoldable pub booked_total : String → List Leg → ℤ
booked_total currency [] = pos 0
booked_total currency (l ∷ ls) =
    let rest = booked_total currency ls in if l.currency == currency then l.amount +ℤ rest else rest

arg_total : String → List LegArg → ℤ
arg_total currency [] = pos 0
arg_total currency (l ∷ ls) =
    let rest = arg_total currency ls in if l.currency == currency then l.amount +ℤ rest else rest

module _ (c : String) where
  booked_total-book :
      (txn_id : String) (legs : List LegArg) → booked_total c (book txn_id legs) ≡ arg_total c legs
  unfolding booked_total arg_total
  booked_total-book txn_id [] = refl
  booked_total-book txn_id (l ∷ ls) = rw (booked_total-book txn_id ls) refl

  booked_total-append :
      (ls ms : List Leg) → booked_total c (ls ++ ms) ≡ booked_total c ls +ℤ booked_total c ms
  unfolding booked_total
  booked_total-append [] ms = sym (zero-+ℤ (booked_total c ms))
  booked_total-append (l ∷ ls) ms =
      ground (
        arith,
        booked_total-append ls ms,
        +ℤ_assoc l.amount (booked_total c ls) (booked_total c ms),
      )

  total_of-net_of :
      (legs : List LegArg) (t : Totals)
      → total_of c (net_of legs t) ≡ total_of c t +ℤ arg_total c legs
  unfolding net_of arg_total
  total_of-net_of [] t = sym (+ℤ-zero (total_of c t))
  total_of-net_of (l ∷ ls) t = ground (
    arith,
    total_of-net_of ls (add_total l.currency l.amount t),
    total_of-add_total c l.currency l.amount t,
    +ℤ_assoc (total_of c t) l.amount (arg_total c ls),
  )

  balanced_total :
      (legs : List LegArg) → unbalanced_totals (net_of legs []) ≡ [] → arg_total c legs ≡ pos 0
  balanced_total legs h =
      sym (zero-+ℤ (arg_total c legs))
      ∙ sym (total_of-net_of legs [])
      ∙ total_of_zero c (net_of legs []) (
          All-unsorted (λ (e : String × ℤ). e.1 ≡ pos 0) by_key (net_of legs [])
            (nothing_kept (sorted by_key (net_of legs [])) h))

  -- No group moves the sum of a currency.
  post_net-total :
      (txn_id : String) (legs : List LegArg) (w : WalletLedger) (t : Totals)
      → unbalanced_totals (net_of legs []) ≡ t
      → booked_total c (post_net txn_id legs t w).1.legs ≡ booked_total c w.legs
  post_net-total txn_id legs w [] h =
      rw
        (
          booked_total-append w.legs (book txn_id legs),
          booked_total-book txn_id legs,
          balanced_total legs h,
        )
        (+ℤ-zero (booked_total c w.legs))
  post_net-total txn_id legs w (e ∷ t) h = refl

  post-total :
      (txn_id : String) (legs : List LegArg) (w : WalletLedger)
      → booked_total c (post txn_id legs w).1.legs ≡ booked_total c w.legs
  unfolding post
  post-total txn_id legs w = elim (Bool-cases (is_booked txn_id w.legs)) [
    | inl e ↦ rw e refl
    | inr e ↦ rw e (post_net-total txn_id legs w (unbalanced_totals (net_of legs [])) refl)
  ]

  capture-total :
      (hold_id destination : String) (w : WalletLedger)
      → booked_total c (capture_hold hold_id destination w).1.legs ≡ booked_total c w.legs
  unfolding capture_hold
  capture-total hold_id destination w = go (live_hold (lookup hold_id w.holds))
    where
      moved :
          (h : Hold) (r : Result Unit × WalletLedger)
          → booked_total c (continue r.0 (λ _. modify (set_state hold_id h captured)) r.1).1.legs
            ≡ booked_total c r.1.legs
      moved h (ok _, w') = refl
      moved h (err e, w') = refl

      go :
          (r : Result Hold)
          → booked_total c
              (continue r
                (λ h w'.
                  let (q, v) =
                    post
                      ("capture:" ⧺ hold_id)
                      (leg h.account (neg h.amount) h.currency
                        ∷ leg destination h.amount h.currency
                        ∷ [])
                      w' in
                  continue q (λ _. modify (set_state hold_id h captured)) v)
                w).1.legs
            ≡ booked_total c w.legs
      go (err e) = refl
      go (ok h) =
          moved h (
            post ("capture:" ⧺ hold_id)
              (leg h.account (neg h.amount) h.currency ∷ leg destination h.amount h.currency ∷ [])
              w)
          ∙ post-total ("capture:" ⧺ hold_id)
              (leg h.account (neg h.amount) h.currency ∷ leg destination h.amount h.currency ∷ []) w

  void-total :
      (hold_id : String) (w : WalletLedger)
      → booked_total c (void_hold hold_id w).1.legs ≡ booked_total c w.legs
  unfolding void_hold
  void-total hold_id w = go (live_hold (lookup hold_id w.holds))
    where
      go :
          (r : Result Hold)
          → booked_total c (continue r (λ h. modify (set_state hold_id h voided)) w).1.legs
            ≡ booked_total c w.legs
      go (err e) = refl
      go (ok h) = refl

  authorize-total :
      (account : String) (amount : ℤ) (currency txn_id merchant : String) (w : WalletLedger)
      → booked_total c (authorize account amount currency txn_id merchant w).1.legs
        ≡ booked_total c w.legs
  unfolding authorize approve
  authorize-total account amount currency txn_id merchant w =
      elim (Bool-cases (leb_ℤ amount (pos 0))) [
        | inl e ↦ rw e refl
        | inr e ↦ elim (Bool-cases (ltb_ℤ (posted_balance account currency w) amount)) [
          | inl d ↦ rw (e, d) refl
          | inr d ↦
              rw (e, d)
                (approved_total (
                    post txn_id
                      (leg account (neg amount) currency ∷ leg merchant amount currency ∷ []) w)
                  ∙ post-total txn_id
                      (leg account (neg amount) currency ∷ leg merchant amount currency ∷ []) w)
        ]
      ]
    where
      approved_total :
          (r : Result Unit × WalletLedger)
          → booked_total c (continue r.0 (λ _. pure approved) r.1).1.legs ≡ booked_total c r.1.legs
      approved_total (ok _, w') = refl
      approved_total (err e, w') = refl

  place_hold-total :
      (hold_id account : String) (amount : ℤ) (currency : String) (expires_on : ℤ)
      (w : WalletLedger)
      → booked_total c (place_hold hold_id account amount currency expires_on w).1.legs
        ≡ booked_total c w.legs
  unfolding place_hold
  place_hold-total hold_id account amount currency expires_on w =
      elim (Bool-cases (is_held (lookup hold_id w.holds))) [
        | inl e ↦ rw e refl
        | inr e ↦ elim (Bool-cases (leb_ℤ amount (pos 0))) [
          | inl d ↦ rw (e, d) refl
          | inr d ↦ rw (e, d) refl
        ]
      ]

  request-total :
      (account : String) (amount : ℤ) (currency hold_id : String) (w : WalletLedger)
      → booked_total c (request_withdrawal account amount currency hold_id w).1.legs
        ≡ booked_total c w.legs
  unfolding request_withdrawal hold_for
  request-total account amount currency hold_id w = elim (Bool-cases (leb_ℤ amount (pos 0))) [
    | inl e ↦ rw e refl
    | inr e ↦ elim (Bool-cases (ltb_ℤ (available account currency w) amount)) [
      | inl d ↦ rw (e, d) refl
      | inr d ↦
          rw (e, d)
            (placed_total (place_hold hold_id account amount currency (w.today +ℤ pos 7) w)
              ∙ place_hold-total hold_id account amount currency (w.today +ℤ pos 7) w)
    ]
  ]
    where
      placed_total :
          (r : Result Unit × WalletLedger)
          → booked_total c (continue r.0 (λ _. pure (pending hold_id)) r.1).1.legs
            ≡ booked_total c r.1.legs
      placed_total (ok _, w') = refl
      placed_total (err e, w') = refl

-- What may happen to a wallet: each of its operations, and the nightly batch.
pub data Operation : Type 0 where
  posting : String → List LegArg → Operation
  purchase : String → ℤ → String → String → String → Operation
  withdrawal : String → ℤ → String → String → Operation
  settling : String → String → Operation
  cancelling : String → Operation
  next_day : Operation

unfoldable pub perform : Operation → WalletLedger → WalletLedger
perform (posting txn_id legs) w = (post txn_id legs w).1
perform (purchase account amount currency txn_id merchant) w =
    (authorize account amount currency txn_id merchant w).1
perform (withdrawal account amount currency hold_id) w =
    (request_withdrawal account amount currency hold_id w).1
perform (settling hold_id destination) w = (settle_withdrawal hold_id destination w).1
perform (cancelling hold_id) w = (cancel_withdrawal hold_id w).1
perform next_day w = record w { today = w.today +ℤ pos 1 }

unfoldable pub perform_all : List Operation → WalletLedger → WalletLedger
unfolding perform
perform_all [] w = w
perform_all (o ∷ os) w = perform_all os (perform o w)

perform-total :
    (c : String) (o : Operation) (w : WalletLedger)
    → booked_total c (perform o w).legs ≡ booked_total c w.legs
unfolding perform
perform-total c (posting txn_id legs) w = post-total c txn_id legs w
perform-total c (purchase account amount currency txn_id merchant) w =
    authorize-total c account amount currency txn_id merchant w
perform-total c (withdrawal account amount currency hold_id) w =
    request-total c account amount currency hold_id w
perform-total c (settling hold_id destination) w = capture-total c hold_id destination w
perform-total c (cancelling hold_id) w = void-total c hold_id w
perform-total c next_day w = refl

-- Whatever a wallet has been through, each operation accepted or refused, what is booked in each
-- currency is what was booked before.
pub wallet_creates_no_money :
    (operations : List Operation) (w : WalletLedger) (currency : String)
    → booked_total currency (perform_all operations w).legs ≡ booked_total currency w.legs
unfolding perform_all
wallet_creates_no_money [] w currency = refl
wallet_creates_no_money (o ∷ os) w currency =
    wallet_creates_no_money os (perform o w) currency ∙ perform-total currency o w
