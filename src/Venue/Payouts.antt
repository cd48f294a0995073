-- ===== src/Venue/Payouts.antt =====
-- examples/prediction-market-bot/fake_venue.py: payout vectors, and what the venue shows.
use financial_engineering_sk.Prelude.{
  ℕ, suc, Bool, true, false, not, List, [], ◌∷◌, Option, none, some, String, ◌==◌, string_eq,
  int_eq, nat_eq, if◌then◌else◌, ltb, length, keep, Result, ok, err, Exec, rejected,
}
use financial_engineering_sk.Prelude.Dict.{Dict}
use financial_engineering_sk.Prelude.Int.{ℤ, pos, ◌+ℤ◌}
use financial_engineering_sk.Venue.Messages.{
  request_eq, Body, market_determined, market_resolved, Event,
}
use financial_engineering_sk.Venue.State.{Resolution, FakeVenue, next_event, emit, is_set}

abbrev pub total : List ℤ → ℤ
total [] = pos 0
total (n ∷ ns) = n +ℤ total ns

unfoldable pub check_vector : List ℤ → ℤ → FakeVenue → Result (Unit {0})
unfolding ◌+ℤ◌
check_vector numerators denominator v =
    if not (length numerators == length v.market.outcomes)
    then err (rejected "PAYOUT_VECTOR_WRONG_LENGTH")
    else if not (total numerators == denominator)
    then err (rejected "PAYOUT_VECTOR_DOES_NOT_SUM_TO_ONE")
    else ok tt

abbrev pub determined : List ℤ → ℤ → Result (Unit {0}) → Exec FakeVenue Event
determined numerators denominator (err e) v = (err e, v)
determined numerators denominator (ok _) v =
    let v' = record v { determination = some (numerators, denominator) } in
    let body = market_determined numerators denominator in (ok (next_event body v'), emit body v')

unfoldable pub determine : List ℤ → ℤ → Exec FakeVenue Event
determine numerators denominator v =
    if is_set v.resolution
    then (err (rejected "MARKET_RESOLVED"), v)
    else determined numerators denominator (check_vector numerators denominator v) v

-- The first index from `i` on whose numerator is the whole denominator.
abbrev pub winner_from : ℕ → ℤ → List ℤ → Option ℕ
winner_from i denominator [] = none
winner_from i denominator (n ∷ ns) =
    if n == denominator then some i else winner_from (suc i) denominator ns

abbrev pub resolved : List ℤ → ℤ → Result (Unit {0}) → Exec FakeVenue Event
resolved numerators denominator (err e) v = (err e, v)
resolved numerators denominator (ok _) v =
    let winner = winner_from 0 denominator numerators in
    let r : Resolution = record {
      payout_numerators = numerators;
      payout_denominator = denominator;
      winning_outcome_index = winner;
    } in
    let v' = record v { resolution = some r } in
    let body = market_resolved numerators denominator winner in
    (ok (next_event body v'), emit body v')

unfoldable pub resolve : List ℤ → ℤ → Exec FakeVenue Event
resolve numerators denominator v =
    resolved numerators denominator (check_vector numerators denominator v) v

unfoldable pub positions : String → FakeVenue → Result (Dict String ℤ)
positions market_id v =
    if market_id == v.market.market_id then ok v.positions_held else err (rejected "UNKNOWN_MARKET")

unfoldable pub events_since : ℕ → FakeVenue → List Event
events_since seq v = keep (λ (e : Event). ltb seq e.seq) v.events

abbrev is_resolution : Body → Bool
is_resolution (market_resolved _ _ _) = true
is_resolution _ = false

unfoldable pub settlement_events : FakeVenue → List Event
settlement_events v = keep (λ (e : Event). is_resolution e.body) v.events
