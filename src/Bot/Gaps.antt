-- ===== src/Bot/Gaps.antt =====
-- safe_bot.py: the loop of `_drain` stops by its own test.
use financial_engineering_sk.Prelude.{
  ◌≡◌, inl, inr, refl, ap, ℕ, zero, suc, ◌+◌, ◌≤◌, nat_eq, none, length, Result, ok, err, err≢ok,
  Option-cases, arith, continue,
}
use financial_engineering_sk.Prelude.Dict.{lookup, remove}
use financial_engineering_sk.Venue.Messages.{Event}
use financial_engineering_sk.Bot.State.{SafeBot, Authority}
use financial_engineering_sk.Bot.Intake.{apply_in_order, drain_loop, drain}
use financial_engineering_sk.Bot.Stream.{length-remove, apply_in_order-Marks}
use financial_engineering_sk.Bot.Sync.{nothing_held}

module _ (authority : Authority) where
  -- The event that the bot waits for is not among those that it holds back.
  abbrev pub IsDrained : SafeBot → Type 0
  IsDrained bot = lookup (bot.stream_watermark + 1) bot.pending_events ≡ none

  drain_loop-IsDrained :
      (fuel n m : ℕ) (bot : SafeBot)
      → length bot.pending_events ≤ fuel
      → (drain_loop authority fuel n bot).0 ≡ ok m
      → IsDrained (drain_loop authority fuel n bot).1
  unfolding drain_loop
  drain_loop-IsDrained zero n m bot enough =
      λ h. nothing_held (bot.stream_watermark + 1) bot.pending_events enough
  drain_loop-IsDrained (suc fuel) n m bot enough =
      elim (Option-cases (lookup (bot.stream_watermark + 1) bot.pending_events)) [
        | inl waits ↦ rw (drain_loop, waits) (λ h. waits)
        | inr (e, held) ↦
            let popped = record bot {
              pending_events = remove (bot.stream_watermark + 1) bot.pending_events;
            } in
            rw (drain_loop, held)
              (after (apply_in_order authority e popped) (λ q.
                let marks = apply_in_order-Marks authority e popped q in
                drain_loop-IsDrained fuel (n + 1) m (apply_in_order authority e popped).1 (
                  omega (
                    arith,
                    ap (length {A = ℕ × Event}) marks.held,
                    length-remove (bot.stream_watermark + 1) bot.pending_events held,
                  ))))
      ]
    where
      after :
          (r : Result (Unit {0}) × SafeBot)
          → (r.0 ≡ ok tt
              → (drain_loop authority fuel (n + 1) r.1).0 ≡ ok m
              → IsDrained (drain_loop authority fuel (n + 1) r.1).1)
          → (continue r.0 (λ _. drain_loop authority fuel (n + 1)) r.1).0 ≡ ok m
          → IsDrained (continue r.0 (λ _. drain_loop authority fuel (n + 1)) r.1).1
      after (ok _, s) f h = f refl h
      after (err e, s) f h = absurd (err≢ok h)

  -- Whatever the bot holds back, a drain that raises nothing has run until the event that the bot
  -- waits for is not among those that it holds back: the loop stops by its own test, and the rounds
  -- that the model gives it are enough.
  pub drain_closes_the_gap :
      (bot : SafeBot) (n : ℕ) → (drain authority bot).0 ≡ ok n → IsDrained (drain authority bot).1
  unfolding drain
  drain_closes_the_gap bot n h =
      drain_loop-IsDrained (length bot.pending_events) 0 n bot (omega arith) h
