-- ===== src/Bot/Log.antt =====
-- safe_bot.py: a bot that was told everything, in any order, stands where the log puts it.
use financial_engineering_sk.Prelude.{
  eq_self, ◌≡◌, inl, inr, refl, sym, ap, ◌∙◌, subst, ℕ, ◌+◌, nat_eq, List, [], ◌∷◌, none, some,
  String, All, All-map, ok,
}
use financial_engineering_sk.Prelude.Dict.{Dict, lookup}
use financial_engineering_sk.Venue.Messages.{Event}
use financial_engineering_sk.Venue.Once.{NumberedFrom}
use financial_engineering_sk.Bot.State.{SafeBot, Authority}
use financial_engineering_sk.Bot.Intake.{source, apply_in_order, apply_all}
use financial_engineering_sk.Bot.Stream.{
  Member, Fresh, none≢some, in_order, Applies, with_pending, apply_in_order-Marks,
  apply_in_order-known,
}
use financial_engineering_sk.Bot.Sync.{Sync}
use financial_engineering_sk.Bot.Delivery.{deliver-Taken}

-- The bot knows the type of the event.
abbrev IsTyped : Event → Type 0
IsTyped e = (src : String) × (source e.body ≡ some src)

module _ (authority : Authority) where
  Applies-IsTyped :
      (log : List Event) (bot : SafeBot) (e : Event)
      → Applies authority log bot
      → Member e log
      → IsTyped e
  Applies-IsTyped [] bot e h m = absurd m
  Applies-IsTyped (x ∷ log) bot e h (inl same) =
      subst IsTyped (sym same) (apply_in_order-known authority x bot h.0)
  Applies-IsTyped (x ∷ log) bot e h (inr m) =
      Applies-IsTyped log (apply_in_order authority x bot).1 e h.1 m

  in_order-pending :
      (log : List Event) (bot : SafeBot)
      → Applies authority log bot
      → (in_order authority log bot).pending_events ≡ bot.pending_events
  unfolding in_order
  in_order-pending [] bot h = refl
  in_order-pending (e ∷ log) bot h =
      in_order-pending log (apply_in_order authority e bot).1 h.1
      ∙ (apply_in_order-Marks authority e bot h.0).held

  -- Nothing is to come: the log is done, and nothing is held back.
  Sync-done :
      (final : SafeBot) (post : List Event) (p : Dict ℕ Event) (b : SafeBot)
      → Sync authority final [] post p b
      → lookup (b.stream_watermark + 1) p ≡ none
      → with_pending authority p b ≡ with_pending authority [] final
  unfolding in_order
  Sync-done final [] [] b h closed = ap (with_pending authority []) h.meets
  Sync-done final [] ((k, e) ∷ p) b h closed = absurd ((h.filed k e (rw (eq_self k) refl)).1)
  Sync-done final (x ∷ post) p b h closed = elim h.coming.0 [
    | inl held ↦
        absurd (none≢some (sym closed ∙ subst (λ (n : ℕ). lookup n p ≡ some x) h.numbered.0 held))
    | inr m ↦ absurd m
  ]

  apply_all-Sync :
      (final : SafeBot) (ds post : List Event) (p : Dict ℕ Event) (b : SafeBot)
      → Sync authority final ds post p b
      → lookup (b.stream_watermark + 1) p ≡ none
      → All IsTyped ds
      → apply_all authority ds (with_pending authority p b)
        ≡ (ok tt, with_pending authority [] final)
  unfolding apply_all
  apply_all-Sync final [] post p b h closed typed =
      ap (λ (s : SafeBot). (ok tt, s)) (Sync-done final post p b h closed)
  apply_all-Sync final (d ∷ ds) post p b h closed typed =
      let t = deliver-Taken authority final d ds post p b h closed typed.0 in
      rw t.runs (apply_all-Sync final ds t.rest t.left t.after t.sync t.closed typed.1)

  -- A log is numbered on from where the bot stands, none of its events has been seen, and none is
  -- refused when they are applied one by one in the order of the log. Then a bot that holds nothing
  -- back and gets deliveries of events of the log, in any order, each event once or more often and
  -- none left out, takes them all and ends in the very state that the log in its order leads to.
  pub deliveries_meet_the_log :
      (log ds : List Event) (bot : SafeBot)
      → bot.pending_events ≡ []
      → NumberedFrom (bot.stream_watermark + 1) log
      → Fresh log bot.seen_events
      → Applies authority log bot
      → All (λ e. Member e log) ds
      → All (λ e. Member e ds) log
      → apply_all authority ds bot ≡ (ok tt, in_order authority log bot)
  deliveries_meet_the_log log ds bot nothing numbered fresh applies from_log all =
      let final = in_order authority log bot in
      let start = ap (λ (p : Dict ℕ Event). with_pending authority p bot) nothing in
      let end =
        ap (λ (p : Dict ℕ Event). with_pending authority p final)
          (in_order-pending log bot applies ∙ nothing) in
      let sync : Sync authority final ds log [] bot = record {
        applies = applies;
        meets = refl;
        numbered = numbered;
        fresh = fresh;
        filed = λ s e found. absurd (none≢some found);
        known = All-map (λ e. Member e log) _ ds (λ e m. inr m) from_log;
        coming = All-map (λ e. Member e ds) _ log (λ e m. inr m) all;
      } in
      ap (apply_all authority ds) start
      ∙ apply_all-Sync final ds log [] bot sync refl (
          All-map (λ e. Member e log) IsTyped ds (λ e m. Applies-IsTyped log bot e applies m)
            from_log)
      ∙ ap (λ (s : SafeBot). (ok tt, s)) (sym end)
