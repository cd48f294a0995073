-- ===== src/Refunds/Clicks.antt =====
-- refund_service.py and refund_book.py: a click and its retries.
use financial_engineering_sk.Prelude.{
  ◌≡◌, refl, ap, ◌∙◌, Bool, true, false, String, ◌⧺◌, string_eq, pair_eq, Result, ok, err, err≢ok,
  ok-injective, continue, pure, Exec, Bool-cases, inl, inr, Option, none, some, Hook, absent,
  returns, raises, run_hook, raise_if, refund_ceiling, ◌>>◌,
}
use financial_engineering_sk.Prelude.Dict.{lookup, lookup-insert_self}
use financial_engineering_sk.Prelude.Int.{ℤ, pos, ◌-ℤ◌, leb_ℤ, ltb_ℤ}
use financial_engineering_sk.Refunds.{
  Modification, RefundProcessor, Client, RefundAttempt, committed, find_attempt, record_attempt,
  Shop, round_trip, refund, captured_amount, refundable_amount, send_refund, refund_within_ceiling,
  issue_known, issue_refund,
}

-- The book answers for this click with this modification.
abbrev Answers : String → String → Modification → Shop → Type 0
Answers psp_reference request_id m s =
    (a : RefundAttempt) × (find_attempt psp_reference request_id s.book ≡ some a)
    × (a.modification ≡ m)

-- A call that answers has the click in the book, with that answer.
abbrev Answered : String → String → Result Modification × Shop → Type 0
Answered psp_reference request_id r =
    (m : Modification) → r.0 ≡ ok m → Answers psp_reference request_id m r.1

module _ {A : Type 0} where
  hook_then :
      (h : Hook) (next : Exec Shop A) (s : Shop)
      → (next s).1.book ≡ s.book
      → ((run_hook h >> next) s).1.book ≡ s.book
  unfolding run_hook
  hook_then absent next s same = same
  hook_then returns next s same = same
  hook_then (raises e) next s same = refl

-- The processor's side of a call leaves the book alone, and so do the hooks.
wire_then :
    {A B : Type 0} (r : Result B × RefundProcessor) (next : B → Exec Shop A) (s : Shop)
    → ((b : B) (p : RefundProcessor) → (next b (record s { processor = p })).1.book ≡ s.book)
    → (continue r.0 next (record s { processor = r.1 })).1.book ≡ s.book
wire_then (ok b, p) next s same = same b p
wire_then (err e, p) next s same = refl

round_trip-book :
    {A : Type 0} (client : Client) (m : Exec RefundProcessor A) (s : Shop)
    → (round_trip client m s).1.book ≡ s.book
unfolding round_trip
round_trip-book client m s = hook_then client.before_send _ s (
    wire_then (m s.processor) _ s
      (λ a p. hook_then client.after_send (pure a) (record s { processor = p }) refl))

module _ {A : Type 0} (psp_reference request_id : String) where
  -- What follows a step that leaves the book alone.
  then-Answered :
      (r : Result A × Shop) (next : A → Exec Shop Modification) (s : Shop)
      → r.1.book ≡ s.book
      → ((a : A) (s' : Shop) → s'.book ≡ s.book → Answered psp_reference request_id (next a s'))
      → Answered psp_reference request_id (continue r.0 next r.1)
  then-Answered (ok a, s') next s same h = h a s' same
  then-Answered (err e, s') next s same h = λ m q. absurd (err≢ok q)

module _ (psp_reference : String) (amount : ℤ) (request_id : String) where
  recorded :
      (m : Modification) (s : Shop)
      → find_attempt psp_reference request_id s.book ≡ none
      → Answered psp_reference request_id (
        ok m,
        record s {
          book =
              record_attempt psp_reference request_id amount m
                (lookup (psp_reference, request_id) s.book)
                s.book;
        },
      )
  unfolding find_attempt record_attempt
  recorded m s missing m' q =
      let a : RefundAttempt = record {
        psp_reference = psp_reference;
        request_id = request_id;
        amount = amount;
        modification = m;
      } in
      rw missing (a, lookup-insert_self (psp_reference, request_id) a s.book, ok-injective q)

  module _ (client : Client) where
    send-Answered :
        (s : Shop)
        → find_attempt psp_reference request_id s.book ≡ none
        → Answered psp_reference request_id (send_refund client psp_reference amount request_id s)
    unfolding send_refund
    send-Answered s missing =
        then-Answered psp_reference request_id
          (round_trip client (refund psp_reference amount ("refund-" ⧺ request_id)) s) _ s
          (round_trip-book client (refund psp_reference amount ("refund-" ⧺ request_id)) s)
          (λ m s' same. recorded m s' (ap (find_attempt psp_reference request_id) same ∙ missing))

    refundable_amount-book : (s : Shop) → (refundable_amount client psp_reference s).1.book ≡ s.book
    unfolding refundable_amount
    refundable_amount-book s =
        go (round_trip client (captured_amount psp_reference) s)
          (round_trip-book client (captured_amount psp_reference) s)
      where
        go :
            (r : Result ℤ × Shop)
            → r.1.book ≡ s.book
            → (continue r.0
                (λ captured. pure (captured -ℤ committed psp_reference s.book))
                r.1).1.book
              ≡ s.book
        go (ok c, s') same = same
        go (err e, s') same = same

    ceiling-Answered :
        (s : Shop)
        → find_attempt psp_reference request_id s.book ≡ none
        → Answered psp_reference request_id
            (refund_within_ceiling client psp_reference amount request_id s)
    unfolding refund_within_ceiling
    ceiling-Answered s missing =
        then-Answered psp_reference request_id (refundable_amount client psp_reference s) _ s
          (refundable_amount-book s)
          (λ remaining s' same.
            guarded (ltb_ℤ remaining amount) s'
              (ap (find_attempt psp_reference request_id) same ∙ missing))
      where
        guarded :
            (t : Bool) (s' : Shop)
            → find_attempt psp_reference request_id s'.book ≡ none
            → Answered psp_reference request_id (
                (raise_if t refund_ceiling >> send_refund client psp_reference amount request_id)
                  s')
        guarded true s' none_yet = λ m q. absurd (err≢ok q)
        guarded false s' none_yet = send-Answered s' none_yet

    known-Answered :
        (o : Option RefundAttempt) (s : Shop)
        → find_attempt psp_reference request_id s.book ≡ o
        → Answered psp_reference request_id (issue_known client psp_reference amount request_id o s)
    unfolding issue_known
    known-Answered none s missing m q = ceiling-Answered s missing m q
    known-Answered (some a) s there m q = (a, there, ok-injective q)

    issue_refund-Answered :
        (s : Shop)
        → Answered psp_reference request_id (issue_refund client psp_reference amount request_id s)
    unfolding issue_refund
    issue_refund-Answered s = elim (Bool-cases (leb_ℤ amount (pos 0))) [
      | inl e ↦ rw e (λ m q. absurd (err≢ok q))
      | inr e ↦ rw e (known-Answered (find_attempt psp_reference request_id s.book) s refl)
    ]

    -- An amount that is accepted is positive.
    answered_amount :
        (s : Shop) (m : Modification)
        → (issue_refund client psp_reference amount request_id s).0 ≡ ok m
        → leb_ℤ amount (pos 0) ≡ false
    unfolding issue_refund
    answered_amount s m h = elim (Bool-cases (leb_ℤ amount (pos 0))) [
      | inl e ↦ absurd (err≢ok (rw e at h))
      | inr e ↦ e
    ]

answered_again :
    (psp_reference request_id : String) (amount : ℤ) (another : Client) (s : Shop)
    {m : Modification}
    → leb_ℤ amount (pos 0) ≡ false
    → (a : RefundAttempt) → find_attempt psp_reference request_id s.book ≡ some a
    → a.modification ≡ m
    → issue_refund another psp_reference amount request_id s ≡ (ok m, s)
unfolding issue_refund issue_known
answered_again psp_reference request_id amount another s positive a there same =
    rw (positive, there, same) refl

-- A click that was answered is answered the same when it is retried, by any worker over any
-- connection, even one that is down: nothing is sent, and nothing changes.
pub retried_click_sends_nothing :
    (psp_reference request_id : String) (amount : ℤ) (client another : Client) (s : Shop)
    (m : Modification)
    → (issue_refund client psp_reference amount request_id s).0 ≡ ok m
    → let s' = (issue_refund client psp_reference amount request_id s).1 in
      issue_refund another psp_reference amount request_id s' ≡ (ok m, s')
retried_click_sends_nothing psp_reference request_id amount client another s m h =
    let (a, there, same) = issue_refund-Answered psp_reference amount request_id client s m h in
    answered_again psp_reference request_id amount another
      (issue_refund client psp_reference amount request_id s).1
      (answered_amount psp_reference amount request_id client s m h) a there same
