-- ===== src/Bot/Sync.antt =====
-- safe_bot.py: where the bot stands in the log, and the loop of `_drain`.
use financial_engineering_sk.Prelude.{
  ◌≡◌, ◌≢◌, ◌⊎◌, inl, inr, refl, sym, ap, ◌∙◌, subst, ℕ, zero, suc, ◌+◌, ◌≤◌, ◌==◌, nat_eq,
  string_eq, pair_eq, if◌then◌else◌, true, false, List, [], ◌∷◌, none, some, contains, All, All-map,
  length, ok, arith, Bool-cases, Option-cases, eq_self, ne_test,
}
use financial_engineering_sk.Prelude.Dict.{Dict, lookup, remove, lookup-remove}
use financial_engineering_sk.Venue.Messages.{Event}
use financial_engineering_sk.Venue.Once.{NumberedFrom}
use financial_engineering_sk.Bot.State.{SafeBot, Authority}
use financial_engineering_sk.Bot.Intake.{apply_in_order, drain_loop}
use financial_engineering_sk.Bot.Stream.{
  Member, Fresh, none≢some, Member-le, first-Member, length-remove, in_order, Applies, with_pending,
  apply_in_order-pending, apply_in_order-Marks,
}

-- Where the bot stands: `post` is the part of the log that it has not applied, `p` what it holds back,
-- and `ds` are the deliveries to come.
pub record Sync (authority : Authority) (final : SafeBot) (ds post : List Event) (p : Dict ℕ Event)
    (b : SafeBot) : Type 0 where
  pub applies : Applies authority post b
  pub meets : in_order authority post b ≡ final
  pub numbered : NumberedFrom (b.stream_watermark + 1) post
  pub fresh : Fresh post b.seen_events
  pub filed : (s : ℕ) (e : Event) → lookup s p ≡ some e → (e.seq ≡ s) × Member e post
  pub known : All (λ e. (contains b.seen_events e.event_id ≡ true) ⊎ Member e post) ds
  pub coming : All (λ e. (lookup e.seq p ≡ some e) ⊎ Member e ds) post

-- Members of a list, with a fact for each.
pub All-Member :
    (P Q : Event → Type 0) (xs : List Event)
    → ((e : Event) → Member e xs → P e → Q e)
    → All P xs
    → All Q xs
All-Member P Q [] f h = tt
All-Member P Q (x ∷ xs) f h = (f x (inl refl) h.0, All-Member P Q xs (λ e m. f e (inr m)) h.1)

pub nothing_held : (k : ℕ) (p : Dict ℕ Event) → length p ≤ 0 → lookup k p ≡ none
nothing_held k [] h = refl
nothing_held k (x ∷ p) h = absurd (omega arith)

module _ (authority : Authority) (final : SafeBot) (ds : List Event) where
  -- Applying the next event of the log, with what is held back no longer holding it.
  pub apply_head-Sync :
      (e : Event) (post : List Event) (p q : Dict ℕ Event) (b : SafeBot)
      → Sync authority final ds (e ∷ post) p b
      → ((s : ℕ) → lookup s q ≡ (if e.seq == s then none else lookup s p))
      → Sync authority final ds post q (apply_in_order authority e b).1
  unfolding in_order
  apply_head-Sync e post p q b h less =
      let marks = apply_in_order-Marks authority e b h.applies.0 in
      record {
        applies = h.applies.1;
        meets = h.meets;
        numbered =
            subst (λ (n : ℕ). NumberedFrom n post) (omega (arith, marks.mark, h.numbered.0))
              h.numbered.1;
        fresh = rw marks.seen h.fresh.1;
        filed = λ s d found. filed_after s d (Bool-cases (e.seq == s)) found;
        known = rw marks.seen (
            All-map (λ d. (contains b.seen_events d.event_id ≡ true) ⊎ Member d (e ∷ post))
              (λ d. (contains (e.event_id ∷ b.seen_events) d.event_id ≡ true) ⊎ Member d post) ds
              known_after h.known);
        coming =
            All-Member (λ d. (lookup d.seq p ≡ some d) ⊎ Member d ds)
              (λ d. (lookup d.seq q ≡ some d) ⊎ Member d ds) post coming_after h.coming.1;
      }
    where
      member_after : (d : Event) → d.seq ≢ e.seq → Member d (e ∷ post) → Member d post
      member_after d differs (inl same) = absurd (differs (ap (λ (x : Event). x.seq) same))
      member_after d differs (inr m) = m

      filed_after :
          (s : ℕ) (d : Event)
          → ((e.seq == s) ≡ true) ⊎ ((e.seq == s) ≡ false)
          → lookup s q ≡ some d
          → (d.seq ≡ s) × Member d post
      filed_after s d (inl t) found = absurd (none≢some (sym (rw t at (less s)) ∙ found))
      filed_after s d (inr t) found =
          let old = h.filed s d (sym (rw t at (less s)) ∙ found) in
          (old.0, member_after d (λ same. ground (arith, t, old.0, same)) old.1)

      known_after :
          (d : Event)
          → (contains b.seen_events d.event_id ≡ true) ⊎ Member d (e ∷ post)
          → (contains (e.event_id ∷ b.seen_events) d.event_id ≡ true) ⊎ Member d post
      known_after d (inl t) = inl (ground (arith, t))
      known_after d (inr (inl same)) = inl (rw same (rw (eq_self e.event_id) refl))
      known_after d (inr (inr m)) = inr m

      coming_after :
          (d : Event)
          → Member d post
          → (lookup d.seq p ≡ some d) ⊎ Member d ds
          → (lookup d.seq q ≡ some d) ⊎ Member d ds
      coming_after d m (inr c) = inr c
      coming_after d m (inl c) = inl (
          rw
            (
              less d.seq,
              ne_test e.seq d.seq (λ same.
                  absurd (omega (arith, same, h.numbered.0, Member-le _ post d h.numbered.1 m))),
            )
            c)

  -- An event that was held back for the next number is the next of the log, and applies.
  popped-Sync :
      (post : List Event) (p : Dict ℕ Event) (b : SafeBot) (e : Event)
      → Sync authority final ds post p b
      → lookup (b.stream_watermark + 1) p ≡ some e
      → (rest : List Event) × ((apply_in_order authority e b).0 ≡ ok tt)
        × Sync authority final ds rest
            (remove (b.stream_watermark + 1) p)
            (apply_in_order authority e b).1
  popped-Sync post p b e h held =
      let (number, member) = h.filed (b.stream_watermark + 1) e held in
      let (rest, split) = first-Member (b.stream_watermark + 1) post e h.numbered member number in
      let h' = subst (λ (es : List Event). Sync authority final ds es p b) split h in
      (
        rest,
        h'.applies.0,
        apply_head-Sync e rest p (remove (b.stream_watermark + 1) p) b h'
            (λ s. rw number (lookup-remove (b.stream_watermark + 1) s p)),
      )

  -- `_drain`, with a round for each event that is held back, closes the gap.
  pub record Drained (fuel n : ℕ) (p : Dict ℕ Event) (b : SafeBot) : Type 0 where
    pub rounds : ℕ
    pub rest : List Event
    pub left : Dict ℕ Event
    pub after : SafeBot
    pub runs :
        drain_loop authority fuel n (with_pending authority p b)
        ≡ (ok rounds, with_pending authority left after)
    pub sync : Sync authority final ds rest left after
    pub closed : lookup (after.stream_watermark + 1) left ≡ none

  drain_loop-Sync :
      (fuel n : ℕ) (post : List Event) (p : Dict ℕ Event) (b : SafeBot)
      → Sync authority final ds post p b
      → length p ≤ fuel
      → Drained fuel n p b
  unfolding drain_loop
  drain_loop-Sync zero n post p b h enough = record {
    rounds = n;
    rest = post;
    left = p;
    after = b;
    runs = refl;
    sync = h;
    closed = nothing_held _ p enough;
  }
  drain_loop-Sync (suc fuel) n post p b h enough =
      elim (Option-cases (lookup (b.stream_watermark + 1) p)) [
        | inl none_held ↦ record {
          rounds = n;
          rest = post;
          left = p;
          after = b;
          runs = rw none_held refl;
          sync = h;
          closed = none_held;
        }
        | inr (e, held) ↦
            let next = popped-Sync post p b e h held in
            let ih =
              drain_loop-Sync fuel (n + 1) next.0 (remove (b.stream_watermark + 1) p)
                (apply_in_order authority e b).1 next.2
                (omega (arith, length-remove (b.stream_watermark + 1) p held)) in
            record {
              rounds = ih.rounds;
              rest = ih.rest;
              left = ih.left;
              after = ih.after;
              runs =
                  rw
                    (
                      held,
                      apply_in_order-pending authority e (remove (b.stream_watermark + 1) p) b,
                      next.1,
                    )
                    ih.runs;
              sync = ih.sync;
              closed = ih.closed;
            }
      ]

  pub drain-Drained :
      (post : List Event) (p : Dict ℕ Event) (b : SafeBot)
      → Sync authority final ds post p b
      → Drained (length p) 0 p b
  drain-Drained post p b h = drain_loop-Sync (length p) 0 post p b h (omega arith)
