-- ===== src/Bot/Settlement.antt =====
-- safe_bot.py: determinations, payouts, and the comparison with the authority.
use financial_engineering_sk.Prelude.{
  ℕ, ◌==◌, string_eq, int_eq, nat_eq, if◌then◌else◌, not, ◌&&◌, Bool, true, false, List, [], ◌∷◌,
  Option, none, some, String, ◌⧺◌, length, contains, sorted, text_le, Result, ok, err, Exec, lift,
  gets, modify, ◌>>=◌, ◌>>◌, and_then, value_error, key_error, zero_division, index_error,
}
use financial_engineering_sk.Prelude.Dict.{Dict, lookup, lookup_or, insert, remove}
use financial_engineering_sk.Prelude.Int.{ℤ, pos, ◌+ℤ◌, ◌-ℤ◌}
use financial_engineering_sk.Prelude.Division.{◌*ℤ◌, ◌//ℤ◌}
use financial_engineering_sk.Venue.Messages.{Market}
use financial_engineering_sk.Venue.Payouts.{total}
use financial_engineering_sk.Bot.State.{
  BotState, pending, working, unknown, OrderRecord, Break, late_determination, open_at_resolution,
  position_break_at_settlement, payout_differs, Fraction, Book, Authority, alert,
}

unfoldable pub distribution : Market → List ℤ → ℤ → Result (Unit {0})
unfolding ◌+ℤ◌
distribution m numerators denominator =
    if length numerators == length m.outcomes && total numerators == denominator
    then ok tt
    else err value_error

unfoldable pub add_fraction : Fraction → Fraction → Fraction
add_fraction a b = record {
  numerator = a.numerator *ℤ b.denominator +ℤ b.numerator *ℤ a.denominator;
  denominator = a.denominator *ℤ b.denominator;
}

-- The loop over the outcomes, with what was credited and left so far. The vector has a numerator for
-- each outcome, or reading it raises.
unfoldable pub payout_loop :
    ℕ → ℤ → Dict String ℤ → List String → List ℤ → ℤ × Fraction → Result (ℤ × Fraction)
unfolding ◌*ℤ◌ ◌//ℤ◌ ◌-ℤ◌ ◌+ℤ◌ add_fraction
payout_loop payout denominator held [] ns (credited, dust) = ok (credited, dust)
payout_loop payout denominator held (o ∷ outcomes) [] (credited, dust) = err index_error
payout_loop payout denominator held (o ∷ outcomes) (n ∷ ns) (credited, dust) =
    let exact = lookup_or (pos 0) o held *ℤ pos payout *ℤ n in
    let share = exact //ℤ denominator in
    let left : Fraction = record {
      numerator = exact -ℤ share *ℤ denominator;
      denominator = denominator;
    } in
    let rest =
      payout_loop payout denominator held outcomes ns (credited +ℤ share, add_fraction dust left) in
    if denominator == pos 0 then err zero_division else rest

unfoldable pub payout_for : Market → List ℤ → ℤ → Dict String ℤ → Result (ℤ × Fraction)
payout_for m numerators denominator held =
    payout_loop m.payout_per_share_micro denominator held m.outcomes numerators
      (pos 0, record { numerator = pos 0; denominator = pos 1 })

-- With what the authority says is held.
abbrev pub credit_of : Market → List ℤ → ℤ → Result (Dict String ℤ) → Result (ℤ × Fraction)
credit_of m numerators denominator held = and_then held (payout_for m numerators denominator)

unfoldable pub on_determined : Authority → String → List ℤ → ℤ → Exec Book Unit
unfolding distribution payout_for
on_determined authority market_id numerators denominator b =
    if contains b.settled market_id
    then (ok tt, alert (late_determination market_id) b)
    else (do
      lift (distribution b.market numerators denominator)
      credit ← lift (credit_of b.market numerators denominator (authority market_id))
      modify (λ (b : Book). record b {
        provisional_credit = insert market_id credit.0 b.provisional_credit;
      }))
        b

abbrev is_open : BotState → Bool
is_open pending = true
is_open working = true
is_open unknown = true
is_open _ = false

unfoldable pub still_open : Dict String OrderRecord → List String
still_open [] = []
still_open ((k, r) ∷ orders) =
    let rest = still_open orders in if is_open r.state then k ∷ rest else rest

abbrev pub alert_open : List String → Book → Book
alert_open [] b = b
alert_open (k ∷ ks) b = alert (open_at_resolution (sorted text_le (k ∷ ks))) b

unfoldable pub alert_breaks : List String → Dict String ℤ → Book → Book
alert_breaks [] held b = b
alert_breaks (o ∷ outcomes) held b =
    let theirs = lookup_or (pos 0) o held in
    let ours = lookup_or (pos 0) o b.positions in
    alert_breaks outcomes held
      (if not (theirs == ours) then alert (position_break_at_settlement o theirs ours) b else b)

abbrev pub alert_provisional : ℤ → String → Option ℤ → Book → Book
alert_provisional credited market_id none b = b
alert_provisional credited market_id (some provisional) b =
    if not (provisional == credited)
    then alert (payout_differs credited provisional market_id) b
    else b

-- The payout reaches `available`.
abbrev pub credit_payout : String → ℤ → Option ℤ → Exec Book Unit
credit_payout market_id credited none b = (err key_error, b)
credit_payout market_id credited (some balance) b = (
  ok tt,
  record b {
    available = insert b.market.collateral_asset (balance +ℤ credited) b.available;
    settlement_credit = insert market_id credited b.settlement_credit;
    settled = market_id ∷ b.settled;
  },
)

unfoldable pub pay_out : String → ℤ × Fraction → Exec Book Unit
pay_out market_id (credited, dust) b =
    let dusty = record b { settlement_dust = add_fraction b.settlement_dust dust } in
    let provisional = lookup market_id b.provisional_credit in
    let popped = record dusty { provisional_credit = remove market_id b.provisional_credit } in
    credit_payout market_id credited (lookup b.market.collateral_asset b.available)
      (alert_provisional credited market_id provisional popped)

-- With the check of the vector, and what the authority says is held.
abbrev pub settle :
    String → List ℤ → ℤ → Result (Unit {0}) → Result (Dict String ℤ) → Exec Book Unit
settle market_id numerators denominator checked answer = do
  lift checked
  modify (λ (b : Book). alert_open (still_open b.orders) b)
  held ← lift answer
  modify (λ (b : Book). alert_breaks b.market.outcomes held b)
  market ← gets (λ (b : Book). b.market)
  credit ← lift (payout_for market numerators denominator held)
  pay_out market_id credit

unfoldable pub on_resolved : Authority → String → List ℤ → ℤ → Exec Book Unit
unfolding distribution still_open alert_breaks payout_for pay_out add_fraction
on_resolved authority market_id numerators denominator b =
    if contains b.settled market_id
    then (ok tt, b)
    else settle market_id numerators denominator (distribution b.market numerators denominator)
        (authority market_id) b

abbrev pub break_of : String → ℤ → ℤ → List Break → List Break
break_of outcome ours theirs rest =
    if not (ours == theirs)
    then (record { what = "position:" ⧺ outcome; ours = ours; theirs = theirs }) ∷ rest
    else rest

unfoldable pub position_breaks : List String → Dict String ℤ → Dict String ℤ → List Break
position_breaks [] held positions = []
position_breaks (o ∷ outcomes) held positions =
    break_of o (lookup_or (pos 0) o positions) (lookup_or (pos 0) o held)
      (position_breaks outcomes held positions)

unfoldable pub reconcile : Authority → String → Book → Result (List Break)
unfolding position_breaks
reconcile authority market_id b =
    and_then (authority market_id) λ held. ok (position_breaks b.market.outcomes held b.positions)
