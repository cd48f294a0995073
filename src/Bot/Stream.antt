-- ===== src/Bot/Stream.antt =====
-- safe_bot.py: deliveries in any order and any number against the log in its order.
use financial_engineering_sk.Prelude.{
  ◌≡◌, ◌⊎◌, inl, inr, refl, sym, ap, ◌∙◌, ℕ, suc, ◌≤◌, ◌<◌, ◌==◌, nat_eq, pair_eq, string_eq, leb,
  false, List, [], ◌∷◌, Option, none, some, String, contains, length, Result, ok, err, err≢ok,
  arith, Bool-cases,
}
use financial_engineering_sk.Prelude.Dict.{Dict, lookup, lookup_or, remove}
use financial_engineering_sk.Venue.Messages.{Event}
use financial_engineering_sk.Venue.Once.{NumberedFrom}
use financial_engineering_sk.Bot.State.{Book, SafeBot, Authority}
use financial_engineering_sk.Bot.Intake.{
  source, watermark_key, after_handler, apply_from, apply_in_order, on_event,
}

abbrev pub Member : {A : Type 0} → A → List A → Type 0
Member a [] = ⊥
Member a (x ∷ xs) = (a ≡ x) ⊎ Member a xs

-- No event of the list has been seen, and none stands twice.
abbrev pub Fresh : List Event → List String → Type 0
Fresh [] seen = Unit
Fresh (e ∷ es) seen = (contains seen e.event_id ≡ false) × Fresh es (e.event_id ∷ seen)

pub none≢some {ℓ} : {A : Type ℓ} {a : A} → none ≡ some a → ⊥
none≢some h = cc

-- Numbers of events of a numbered list.
pub Member-le : (n : ℕ) (es : List Event) (e : Event) → NumberedFrom n es → Member e es → n ≤ e.seq
Member-le n [] e h m = absurd m
Member-le n (x ∷ es) e h (inl p) = rw p (omega (arith, h.0))
Member-le n (x ∷ es) e h (inr m) = omega (arith, Member-le (suc n) es e h.1 m)

pub seq_unique :
    (n : ℕ) (es : List Event) (a b : Event)
    → NumberedFrom n es
    → Member a es
    → Member b es
    → a.seq ≡ b.seq
    → a ≡ b
seq_unique n [] a b h p q s = absurd p
seq_unique n (x ∷ es) a b h (inl p) (inl q) s = p ∙ sym q
seq_unique n (x ∷ es) a b h (inl p) (inr q) s =
    absurd (omega (arith, s, h.0, ap (λ (e : Event). e.seq) p, Member-le (suc n) es b h.1 q))
seq_unique n (x ∷ es) a b h (inr p) (inl q) s =
    absurd (omega (arith, s, h.0, ap (λ (e : Event). e.seq) q, Member-le (suc n) es a h.1 p))
seq_unique n (x ∷ es) a b h (inr p) (inr q) s = seq_unique (suc n) es a b h.1 p q s

-- The member with the first number is the first.
pub first-Member :
    (n : ℕ) (es : List Event) (e : Event)
    → NumberedFrom n es
    → Member e es
    → e.seq ≡ n
    → (rest : List Event) × (es ≡ e ∷ rest)
first-Member n [] e h m s = absurd m
first-Member n (x ∷ es) e h (inl p) s = (es, rw p refl)
first-Member n (x ∷ es) e h (inr m) s = absurd (omega (arith, s, Member-le (suc n) es e h.1 m))

-- A fresh event is not among those seen.
pub Fresh-unseen :
    (es : List Event) (seen : List String) (e : Event)
    → Fresh es seen
    → Member e es
    → contains seen e.event_id ≡ false
Fresh-unseen [] seen e h m = absurd m
Fresh-unseen (x ∷ es) seen e h (inl p) = rw p h.0
Fresh-unseen (x ∷ es) seen e h (inr m) = ground (arith, Fresh-unseen es (x.event_id ∷ seen) e h.1 m)

pub length-remove :
    (k : ℕ) (d : Dict ℕ Event) {e : Event} → lookup k d ≡ some e → length (remove k d) < length d
length-remove k [] h = absurd (none≢some h)
length-remove k ((j, w) ∷ d) h = elim (Bool-cases (j == k)) [
  | inl same ↦ rw same (omega (arith, length-remove_le k d))
  | inr other ↦ rw other (omega (arith, length-remove k d (rw other at h)))
]
  where
    length-remove_le : (k : ℕ) (d : Dict ℕ Event) → length (remove k d) ≤ length d
    length-remove_le k [] = omega arith
    length-remove_le k ((j, w) ∷ d) = ground (arith, length-remove_le k d)

module _ (authority : Authority) where
  -- The log, applied event by event in its order.
  unfoldable pub in_order : List Event → SafeBot → SafeBot
  in_order [] bot = bot
  in_order (e ∷ es) bot = in_order es (apply_in_order authority e bot).1

  -- No event of the log is refused when it is applied in its order.
  abbrev pub Applies : List Event → SafeBot → Type 0
  Applies [] bot = Unit
  Applies (e ∷ es) bot =
      ((apply_in_order authority e bot).0 ≡ ok tt) × Applies es (apply_in_order authority e bot).1

  abbrev pub with_pending : Dict ℕ Event → SafeBot → SafeBot
  with_pending p bot = record bot { pending_events = p }

  -- Applying an event does not look at what is held back.
  after_handler-pending :
      (e : Event) (src : String) (r : Result (Unit {0}) × Book) (p : Dict ℕ Event) (b : SafeBot)
      → after_handler e src r (with_pending p b)
        ≡ ((after_handler e src r b).0, with_pending p (after_handler e src r b).1)
  after_handler-pending e src (ok _, book) p b = refl
  after_handler-pending e src (err _, book) p b = refl

  apply_from-pending :
      (e : Event) (src : Option String) (p : Dict ℕ Event) (b : SafeBot)
      → apply_from authority e src (with_pending p b)
        ≡ ((apply_from authority e src b).0, with_pending p (apply_from authority e src b).1)
  apply_from-pending e none p b = refl
  apply_from-pending e (some src) p b =
      elim (Bool-cases (leb e.seq (lookup_or 0 (watermark_key e src) b.watermark))) [
        | inl h ↦ rw h refl
        | inr h ↦ rw h (after_handler-pending e src (on_event authority e b.book) p b)
      ]

  pub apply_in_order-pending :
      (e : Event) (p : Dict ℕ Event) (b : SafeBot)
      → apply_in_order authority e (with_pending p b)
        ≡ ((apply_in_order authority e b).0, with_pending p (apply_in_order authority e b).1)
  unfolding apply_in_order
  apply_in_order-pending e p b = apply_from-pending e (source e.body) p b

  -- What an event that is applied does to the marks of the stream.
  pub record Marks (e : Event) (b b' : SafeBot) : Type 0 where
    pub mark : b'.stream_watermark ≡ e.seq
    pub seen : b'.seen_events ≡ e.event_id ∷ b.seen_events
    pub held : b'.pending_events ≡ b.pending_events

  after_handler-Marks :
      (e : Event) (src : String) (r : Result (Unit {0}) × Book) (b : SafeBot)
      → (after_handler e src r b).0 ≡ ok tt
      → Marks e b (after_handler e src r b).1
  after_handler-Marks e src (ok _, book) b h = record { mark = refl; seen = refl; held = refl }
  after_handler-Marks e src (err _, book) b h = absurd (err≢ok h)

  apply_from-Marks :
      (e : Event) (src : Option String) (b : SafeBot)
      → (apply_from authority e src b).0 ≡ ok tt
      → Marks e b (apply_from authority e src b).1
  apply_from-Marks e none b = λ h. absurd (err≢ok h)
  apply_from-Marks e (some src) b =
      elim (Bool-cases (leb e.seq (lookup_or 0 (watermark_key e src) b.watermark))) [
        | inl h ↦ rw h (λ q. absurd (err≢ok q))
        | inr h ↦ rw h (after_handler-Marks e src (on_event authority e b.book) b)
      ]

  pub apply_in_order-Marks :
      (e : Event) (b : SafeBot)
      → (apply_in_order authority e b).0 ≡ ok tt
      → Marks e b (apply_in_order authority e b).1
  unfolding apply_in_order
  apply_in_order-Marks e b h = apply_from-Marks e (source e.body) b h

  -- An event that is applied has a type that the bot knows.
  pub apply_in_order-known :
      (e : Event) (b : SafeBot)
      → (apply_in_order authority e b).0 ≡ ok tt
      → (src : String) × (source e.body ≡ some src)
  unfolding apply_in_order
  apply_in_order-known e b h = go (source e.body) refl h
    where
      go :
          (o : Option String)
          → source e.body ≡ o
          → (apply_from authority e o b).0 ≡ ok tt
          → (src : String) × (source e.body ≡ some src)
      go none q r = absurd (err≢ok r)
      go (some src) q r = (src, q)
