-- ===== src/Bot/Payouts.antt =====
-- safe_bot.py: a terminal payout is credited from the authority's position, and once.
use financial_engineering_sk.Prelude.{
  ◌≡◌, refl, sym, ap, ◌∙◌, ◌==◌, string_eq, int_eq, Bool, true, false, not, List, [], ◌∷◌, Option,
  none, some, String, Result, ok, err, err≢ok, contains, eq_self, Error, continue, subst,
  if◌then◌else◌,
}
use financial_engineering_sk.Prelude.Dict.{Dict, lookup, lookup_or, remove, lookup-insert_self}
use financial_engineering_sk.Prelude.Int.{ℤ, pos, ◌+ℤ◌}
use financial_engineering_sk.Venue.Messages.{Market}
use financial_engineering_sk.Bot.State.{Alert, Fraction, Book, Authority, alert}
use financial_engineering_sk.Bot.Settlement.{
  distribution, payout_for, still_open, alert_open, alert_breaks, alert_provisional, credit_payout,
  pay_out, add_fraction, on_resolved, settle,
}

-- Only alerts were added.
abbrev OnlyAlerts : Book → Book → Type 0
OnlyAlerts b b' = b' ≡ record b { alerts = b'.alerts }

alert_open-OnlyAlerts : (ks : List String) (b : Book) → OnlyAlerts b (alert_open ks b)
alert_open-OnlyAlerts [] b = refl
alert_open-OnlyAlerts (k ∷ ks) b = refl

OnlyAlerts-trans : (a b c : Book) → OnlyAlerts a b → OnlyAlerts b c → OnlyAlerts a c
OnlyAlerts-trans a b c p q = q ∙ ap (λ (x : Book). record x { alerts = c.alerts }) p

alert_if-OnlyAlerts : (t : Bool) (a : Alert) (b : Book) → OnlyAlerts b (if t then alert a b else b)
alert_if-OnlyAlerts true a b = refl
alert_if-OnlyAlerts false a b = refl

alert_breaks-OnlyAlerts :
    (outcomes : List String) (held : Dict String ℤ) (b : Book)
    → OnlyAlerts b (alert_breaks outcomes held b)
unfolding alert_breaks
alert_breaks-OnlyAlerts [] held b = refl
alert_breaks-OnlyAlerts (o ∷ outcomes) held b =
    OnlyAlerts-trans b _ (alert_breaks (o ∷ outcomes) held b)
      (alert_if-OnlyAlerts (not (lookup_or (pos 0) o held == lookup_or (pos 0) o b.positions)) _ b)
      (alert_breaks-OnlyAlerts outcomes held _)

alert_provisional-OnlyAlerts :
    (credited : ℤ) (market_id : String) (o : Option ℤ) (b : Book)
    → OnlyAlerts b (alert_provisional credited market_id o b)
alert_provisional-OnlyAlerts credited market_id none b = refl
alert_provisional-OnlyAlerts credited market_id (some p) b =
    alert_if-OnlyAlerts (not (p == credited)) _ b

-- What a market that was paid out looks like: the collateral has gained the payout.
pub record PaidOut (market_id : String) (credited : ℤ) (b b' : Book) : Type 0 where
  pub balance : ℤ
  pub before : lookup b.market.collateral_asset b.available ≡ some balance
  pub after : lookup b.market.collateral_asset b'.available ≡ some (balance +ℤ credited)
  pub marked : contains b'.settled market_id ≡ true

credit_payout-PaidOut :
    (market_id : String) (credited : ℤ) (o : Option ℤ) (b b' : Book)
    → lookup b.market.collateral_asset b.available ≡ o
    → credit_payout market_id credited o b ≡ (ok tt, b')
    → PaidOut market_id credited b b'
credit_payout-PaidOut market_id credited none b b' e h =
    absurd (err≢ok (ap (λ (r : Result (Unit {0}) × Book). r.0) h))
credit_payout-PaidOut market_id credited (some balance) b b' e h =
    rw (sym (ap (λ (r : Result (Unit {0}) × Book). r.1) h)) (record {
      balance = balance;
      before = e;
      after = lookup-insert_self b.market.collateral_asset (balance +ℤ credited) b.available;
      marked = rw (eq_self market_id) refl;
    })

-- Alerts change neither the market nor a balance.
PaidOut-alerts :
    (market_id : String) (credited : ℤ) (a b b' : Book)
    → OnlyAlerts a b
    → PaidOut market_id credited b b'
    → PaidOut market_id credited a b'
PaidOut-alerts market_id credited a b b' p h =
    let same = ap (λ (x : Book). lookup x.market.collateral_asset x.available) p in
    let name = ap (λ (x : Book). x.market.collateral_asset) p in
    record {
      balance = h.balance;
      before = sym same ∙ h.before;
      after =
          subst (λ (k : String). lookup k b'.available ≡ some (h.balance +ℤ credited)) name h.after;
      marked = h.marked;
    }

pay_out-PaidOut :
    (market_id : String) (credit : ℤ × Fraction) (b b' : Book)
    → pay_out market_id credit b ≡ (ok tt, b')
    → PaidOut market_id credit.0 b b'
unfolding pay_out
pay_out-PaidOut market_id (credited, dust) b b' h =
    let popped : Book = record b {
      settlement_dust = add_fraction b.settlement_dust dust;
      provisional_credit = remove market_id b.provisional_credit;
    } in
    let provisional = lookup market_id b.provisional_credit in
    let alerted = alert_provisional credited market_id provisional popped in
    let p = alert_provisional-OnlyAlerts credited market_id provisional popped in
    let q =
      credit_payout-PaidOut market_id credited (lookup b.market.collateral_asset b.available)
        alerted b' (ap (λ (x : Book). lookup x.market.collateral_asset x.available) p) h in
    let r = PaidOut-alerts market_id credited popped alerted b' p q in
    record { balance = r.balance; before = r.before; after = r.after; marked = r.marked }

-- A settlement that returned has had an answer of the authority and paid what the vector makes of it.
pub record Settled (market_id : String) (ns : List ℤ) (d : ℤ) (answer : Result (Dict String ℤ))
    (b b' : Book) : Type 0 where
  pub held : Dict String ℤ
  pub credit : ℤ × Fraction
  pub answered : answer ≡ ok held
  pub worth : payout_for b.market ns d held ≡ ok credit
  pub paid : PaidOut market_id credit.0 b b'

err_absurd :
    {A : Type 0} {e : Error} {b b' : Book}
    → ◌≡◌ {A = Result (Unit {0}) × Book} (err e, b) (ok tt, b')
    → A
err_absurd h = absurd (err≢ok (ap (λ (r : Result (Unit {0}) × Book). r.0) h))

settle-Settled :
    (market_id : String) (ns : List ℤ) (d : ℤ) (checked : Result (Unit {0}))
    (answer : Result (Dict String ℤ)) (b b' : Book)
    → settle market_id ns d checked answer b ≡ (ok tt, b')
    → Settled market_id ns d answer b b'
settle-Settled market_id ns d (err e) answer b b' h = err_absurd h
settle-Settled market_id ns d (ok _) (err e) b b' h = err_absurd h
settle-Settled market_id ns d (ok _) (ok held) b b' h =
    credited (payout_for b.market ns d held) refl (
      subst
        (λ (m : Market). continue (payout_for m ns d held) (pay_out market_id) broken ≡ (ok tt, b'))
        (ap (λ (x : Book). x.market) alerted) h)
  where
    opened : Book
    opened = alert_open (still_open b.orders) b

    broken : Book
    broken = alert_breaks opened.market.outcomes held opened

    alerted : OnlyAlerts b broken
    alerted =
        OnlyAlerts-trans b opened broken (alert_open-OnlyAlerts (still_open b.orders) b)
          (alert_breaks-OnlyAlerts opened.market.outcomes held opened)

    credited :
        (r : Result (ℤ × Fraction))
        → payout_for b.market ns d held ≡ r
        → continue r (pay_out market_id) broken ≡ (ok tt, b')
        → Settled market_id ns d (ok held) b b'
    credited (err e) q h = err_absurd h
    credited (ok credit) q h = record {
      held = held;
      credit = credit;
      answered = refl;
      worth = q;
      paid =
          PaidOut-alerts market_id credit.0 b broken b' alerted
            (pay_out-PaidOut market_id credit broken b' h);
    }

-- A resolution of a market that is not settled yet and that raises nothing credits the collateral
-- with what the payout vector is worth against the position that the authority tells, whatever the
-- bot's own position is; and any resolution of the market after it, with whatever vector and
-- whatever authority, changes nothing.
pub payout_is_credited_once :
    (authority : Authority) (market_id : String) (ns : List ℤ) (d : ℤ) (b b' : Book)
    → contains b.settled market_id ≡ false
    → on_resolved authority market_id ns d b ≡ (ok tt, b')
    → Settled market_id ns d (authority market_id) b b'
      × ((later : Authority) (ns' : List ℤ) (d' : ℤ)
          → on_resolved later market_id ns' d' b' ≡ (ok tt, b'))
unfolding on_resolved
payout_is_credited_once authority market_id ns d b b' open_market h =
    let s =
      settle-Settled market_id ns d (distribution b.market ns d) (authority market_id) b b'
        (rw open_market at h) in
    (s, λ later ns' d'. rw s.paid.marked refl)
