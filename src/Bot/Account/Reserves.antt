-- ===== src/Bot/Account/Reserves.antt =====
-- safe_bot.py: the stream of events keeps what is reserved and what the orders hold together.
use financial_engineering_sk.Prelude.{
  ◌≡◌, refl, string_eq, nat_eq, pair_eq, if◌then◌else◌, Bool, true, false, inl, inr, ℕ, zero, suc,
  ◌+◌, String, Option, none, some, contains, Result, ok, err, err≢ok, pure, leb, ltb, length,
  Option-cases,
}
use financial_engineering_sk.Prelude.Dict.{lookup, lookup_or, remove}
use financial_engineering_sk.Venue.Messages.{Event}
use financial_engineering_sk.Bot.State.{Book, SafeBot, Authority}
use financial_engineering_sk.Bot.Intake.{
  on_event, source, after_handler, apply_from, apply_in_order, drain_loop, drain, apply_next,
  apply_known, apply_event, applied, watermark_key,
}
use financial_engineering_sk.Bot.Triples.{Triple, bind-Triple, lift-Triple}
use financial_engineering_sk.Bot.Account.Backing.{IsBacked}
use financial_engineering_sk.Bot.Account.Covered.{on_event-IsBacked}

module _ (asset : String) (authority : Authority) where
  abbrev Backed : SafeBot → Type 0
  Backed bot = IsBacked asset bot.book

  handled :
      (ev : Event) (src : String) (r : Result (Unit {0}) × Book) (bot : SafeBot)
      → ((a : Unit {0}) → r.0 ≡ ok a → IsBacked asset r.1)
      → (a : Unit {0}) → (after_handler ev src r bot).0 ≡ ok a
      → Backed (after_handler ev src r bot).1
  handled ev src (ok _, b) bot h a e = h tt refl
  handled ev src (err x, b) bot h a e = absurd (err≢ok e)

  chosen :
      {A : Type 0} (test : Bool) (x y : Result A × SafeBot)
      → ((a : A) → x.0 ≡ ok a → Backed x.1)
      → ((a : A) → y.0 ≡ ok a → Backed y.1)
      → (a : A) → (if test then x else y).0 ≡ ok a
      → Backed (if test then x else y).1
  chosen true x y p q = p
  chosen false x y p q = q

  apply_from-Backed :
      (ev : Event) (o : Option String) → Triple Backed (apply_from authority ev o) Backed
  apply_from-Backed ev none = record { run = λ bot h a e. absurd (err≢ok e) }
  apply_from-Backed ev (some src) = record {
    run = λ bot h.
        chosen (leb ev.seq (lookup_or 0 (watermark_key ev src) bot.watermark)) _ _
          (λ a e. absurd (err≢ok e))
          (handled ev src (on_event authority ev bot.book) bot
            ((on_event-IsBacked asset authority ev).run bot.book h));
  }

  apply_in_order-Backed : (ev : Event) → Triple Backed (apply_in_order authority ev) Backed
  unfolding apply_in_order
  apply_in_order-Backed ev = apply_from-Backed ev (source ev.body)

  drain_loop-Backed : (fuel n : ℕ) → Triple Backed (drain_loop authority fuel n) Backed
  unfolding drain_loop
  drain_loop-Backed zero n = record { run = λ bot h a e. h }
  drain_loop-Backed (suc fuel) n = record {
    run = λ bot h. elim (Option-cases (lookup (bot.stream_watermark + 1) bot.pending_events)) [
      | inl q ↦ rw (drain_loop, q) (λ a e. h)
      | inr (ev, q) ↦
          rw (drain_loop, q)
            ((bind-Triple Backed Backed Backed _ _ (apply_in_order-Backed ev)
                (λ a. drain_loop-Backed fuel (n + 1))).run
              (record bot { pending_events = remove (bot.stream_watermark + 1) bot.pending_events })
              h)
    ];
  }

  apply_next-Backed : (ev : Event) → Triple Backed (apply_next authority ev) Backed
  unfolding drain
  apply_next-Backed ev = bind-Triple _ Backed _ _ _ (apply_in_order-Backed ev) (λ a.
      bind-Triple Backed Backed Backed (drain authority) (λ _. pure applied)
        (record { run = λ bot. (drain_loop-Backed (length bot.pending_events) 0).run bot })
        (λ a. lift-Triple Backed (ok applied)))

  apply_known-Backed :
      (ev : Event) (o : Option String) → Triple Backed (apply_known authority ev o) Backed
  apply_known-Backed ev none = record { run = λ bot h a e. absurd (err≢ok e) }
  apply_known-Backed ev (some src) = record {
    run = λ bot h.
        chosen (contains bot.seen_events ev.event_id) _ _ (λ a e. h)
          (chosen (leb ev.seq bot.stream_watermark) _ _ (λ a e. h)
            (chosen (ltb (bot.stream_watermark + 1) ev.seq) _ _ (λ a e. h)
              ((apply_next-Backed ev).run bot h)));
  }

  pub apply_event-Backed : (ev : Event) → Triple Backed (apply_event authority ev) Backed
  unfolding apply_event
  apply_event-Backed ev = apply_known-Backed ev (source ev.body)
