-- ===== src/Bot/Delivery.antt =====
-- safe_bot.py: what one delivery does, in whatever order it comes.
use financial_engineering_sk.Prelude.{
  ◌≡◌, ◌⊎◌, inl, inr, refl, sym, ap, ◌∙◌, subst, ℕ, ◌+◌, ◌==◌, nat_eq, string_eq, pair_eq,
  if◌then◌else◌, ltb, leb, true, false, List, ◌∷◌, none, some, String, contains, ok, arith,
  Bool-cases, eq_sound, eq_self, ne_test, eq_test,
}
use financial_engineering_sk.Prelude.Dict.{Dict, lookup, insert, lookup-insert}
use financial_engineering_sk.Venue.Messages.{Event}
use financial_engineering_sk.Bot.State.{SafeBot, Authority}
use financial_engineering_sk.Bot.Intake.{
  source, apply_in_order, drain, apply_event, Taken, duplicate, buffered, applied,
}
use financial_engineering_sk.Bot.Stream.{
  Member, Member-le, seq_unique, first-Member, Fresh-unseen, with_pending, apply_in_order-pending,
  apply_in_order-Marks,
}
use financial_engineering_sk.Bot.Sync.{Sync, All-Member, apply_head-Sync, drain-Drained}

module _ (authority : Authority) (final : SafeBot) (d : Event) (ds : List Event) where
  -- A delivery of an event that was seen is one delivery less to come.
  drop-Sync :
      (post : List Event) (p : Dict ℕ Event) (b : SafeBot)
      → Sync authority final (d ∷ ds) post p b
      → contains b.seen_events d.event_id ≡ true
      → Sync authority final ds post p b
  drop-Sync post p b h seen = record {
    applies = h.applies;
    meets = h.meets;
    numbered = h.numbered;
    fresh = h.fresh;
    filed = h.filed;
    known = h.known.1;
    coming =
        All-Member (λ e. (lookup e.seq p ≡ some e) ⊎ Member e (d ∷ ds))
          (λ e. (lookup e.seq p ≡ some e) ⊎ Member e ds) post other h.coming;
  }
    where
      other :
          (e : Event)
          → Member e post
          → (lookup e.seq p ≡ some e) ⊎ Member e (d ∷ ds)
          → (lookup e.seq p ≡ some e) ⊎ Member e ds
      other e m (inl c) = inl c
      other e m (inr (inl same)) =
          let unseen = Fresh-unseen post b.seen_events e h.fresh m in
          absurd (
            ground (
              arith,
              seen,
              subst (λ (x : Event). contains b.seen_events x.event_id ≡ false) same unseen,
            ))
      other e m (inr (inr c)) = inr c

  -- A delivery ahead of its turn is held back.
  insert-Sync :
      (post : List Event) (p : Dict ℕ Event) (b : SafeBot)
      → Sync authority final (d ∷ ds) post p b
      → Member d post
      → Sync authority final ds post (insert d.seq d p) b
  insert-Sync post p b h member = record {
    applies = h.applies;
    meets = h.meets;
    numbered = h.numbered;
    fresh = h.fresh;
    filed = λ s e found. filed_after s e (Bool-cases (d.seq == s)) found;
    known = h.known.1;
    coming =
        All-Member (λ e. (lookup e.seq p ≡ some e) ⊎ Member e (d ∷ ds))
          (λ e. (lookup e.seq (insert d.seq d p) ≡ some e) ⊎ Member e ds) post coming_after
          h.coming;
  }
    where
      some_same : {x y : Event} → some x ≡ some y → x ≡ y
      some_same q = cc

      filed_after :
          (s : ℕ) (e : Event)
          → ((d.seq == s) ≡ true) ⊎ ((d.seq == s) ≡ false)
          → lookup s (insert d.seq d p) ≡ some e
          → (e.seq ≡ s) × Member e post
      filed_after s e (inl t) found =
          let here : some d ≡ some e = sym (rw (lookup-insert d.seq s d p, t) refl) ∙ found in
          subst (λ (x : Event). (x.seq ≡ s) × Member x post) (some_same here)
            (eq_sound d.seq s t, member)
      filed_after s e (inr t) found =
          h.filed s e (sym (rw (lookup-insert d.seq s d p, t) refl) ∙ found)

      coming_after :
          (e : Event)
          → Member e post
          → (lookup e.seq p ≡ some e) ⊎ Member e (d ∷ ds)
          → (lookup e.seq (insert d.seq d p) ≡ some e) ⊎ Member e ds
      coming_after e m (inr (inr c)) = inr c
      coming_after e m (inr (inl same)) = inl (
          rw
            (
              lookup-insert d.seq e.seq d p,
              eq_test d.seq e.seq (ap (λ (x : Event). x.seq) (sym same)),
            )
            (ap some (sym same)))
      coming_after e m (inl c) = elim (Bool-cases (d.seq == e.seq)) [
        | inl t ↦ inl (
            rw (lookup-insert d.seq e.seq d p, t)
              (ap some (
                seq_unique (b.stream_watermark + 1) post d e h.numbered member m
                  (eq_sound d.seq e.seq t))))
        | inr t ↦ inl (rw (lookup-insert d.seq e.seq d p, t) c)
      ]

  -- The outcome of one delivery.
  pub record TakenAs (p : Dict ℕ Event) (b : SafeBot) : Type 0 where
    pub answer : Taken
    pub rest : List Event
    pub left : Dict ℕ Event
    pub after : SafeBot
    pub runs :
        apply_event authority d (with_pending authority p b)
        ≡ (ok answer, with_pending authority left after)
    pub sync : Sync authority final ds rest left after
    pub closed : lookup (after.stream_watermark + 1) left ≡ none

  module _ (post : List Event) (p : Dict ℕ Event) (b : SafeBot)
      (h : Sync authority final (d ∷ ds) post p b)
      (closed : lookup (b.stream_watermark + 1) p ≡ none)
      (typed : (src : String) × (source d.body ≡ some src)) where
    seen-Taken : contains b.seen_events d.event_id ≡ true → TakenAs p b
    unfolding apply_event
    seen-Taken seen = record {
      answer = duplicate;
      rest = post;
      left = p;
      after = b;
      runs = rw (typed.1, seen) refl;
      sync = drop-Sync post p b h seen;
      closed = closed;
    }

    ahead-Taken : Member d post → ltb (b.stream_watermark + 1) d.seq ≡ true → TakenAs p b
    unfolding apply_event
    ahead-Taken member ahead =
        let unseen = Fresh-unseen post b.seen_events d h.fresh member in
        let above : leb d.seq b.stream_watermark ≡ false = ground (arith, ahead) in
        record {
          answer = buffered;
          rest = post;
          left = insert d.seq d p;
          after = b;
          runs = rw (typed.1, unseen, above, ahead) refl;
          sync = insert-Sync post p b h member;
          closed =
              rw
                (
                  lookup-insert d.seq (b.stream_watermark + 1) d p,
                  ne_test d.seq (b.stream_watermark + 1) (λ q. ground (arith, ahead, q)),
                )
                closed;
        }

    next-Sync :
        (rest : List Event)
        → post ≡ d ∷ rest
        → d.seq ≡ b.stream_watermark + 1
        → ((apply_in_order authority d b).0 ≡ ok tt)
          × Sync authority final ds rest p (apply_in_order authority d b).1
    next-Sync rest split number =
        let h' = subst (λ (es : List Event). Sync authority final (d ∷ ds) es p b) split h in
        let marks = apply_in_order-Marks authority d b h'.applies.0 in
        (h'.applies.0, drop-Sync_after rest h' (rw (marks.seen, eq_self d.event_id) refl))
      where
        not_held :
            (s : ℕ)
            → ((d.seq == s) ≡ true) ⊎ ((d.seq == s) ≡ false)
            → lookup s p ≡ (if d.seq == s then none else lookup s p)
        not_held s (inl t) =
            rw t (subst (λ (n : ℕ). lookup n p ≡ none) (sym number ∙ eq_sound d.seq s t) closed)
        not_held s (inr t) = rw t refl

        drop-Sync_after :
            (rest : List Event)
            → Sync authority final (d ∷ ds) (d ∷ rest) p b
            → contains (apply_in_order authority d b).1.seen_events d.event_id ≡ true
            → Sync authority final ds rest p (apply_in_order authority d b).1
        drop-Sync_after rest h' seen =
            drop-Sync rest p (apply_in_order authority d b).1
              (apply_head-Sync authority final (d ∷ ds) d rest p p b h'
                (λ s. not_held s (Bool-cases (d.seq == s))))
              seen

    turn-Taken : Member d post → ltb (b.stream_watermark + 1) d.seq ≡ false → TakenAs p b
    unfolding apply_event drain
    turn-Taken member turn =
        let unseen = Fresh-unseen post b.seen_events d h.fresh member in
        let least = Member-le (b.stream_watermark + 1) post d h.numbered member in
        let above : leb d.seq b.stream_watermark ≡ false = ground (arith, least) in
        let number : d.seq ≡ b.stream_watermark + 1 = ground (arith, turn, least) in
        let (rest, split) = first-Member (b.stream_watermark + 1) post d h.numbered member number in
        let (applies, next) = next-Sync rest split number in
        let done = drain-Drained authority final ds rest p (apply_in_order authority d b).1 next in
        record {
          answer = applied;
          rest = done.rest;
          left = done.left;
          after = done.after;
          runs =
              rw
                (
                  typed.1,
                  unseen,
                  above,
                  turn,
                  apply_in_order-pending authority d p b,
                  applies,
                  done.runs,
                )
                refl;
          sync = done.sync;
          closed = done.closed;
        }

    pub deliver-Taken : TakenAs p b
    deliver-Taken = elim h.known.0 [
      | inl seen ↦ seen-Taken seen
      | inr member ↦ elim (Bool-cases (ltb (b.stream_watermark + 1) d.seq)) [
        | inl ahead ↦ ahead-Taken member ahead
        | inr turn ↦ turn-Taken member turn
      ]
    ]
