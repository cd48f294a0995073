-- ===== src/Refunds.antt =====
-- evals/behavioral/payments-refund-ceiling-in-flight/repo: processor.py (the processor's record and
-- a worker's connection to it), refund_book.py (the shop's book) and refund_service.py.
pub mod Clicks
pub mod References
use financial_engineering_sk.Prelude.{
  ℕ, ◌+◌, Bool, true, false, not, ◌&&◌, List, [], ◌∷◌, ◌++◌, map, Option, none, some, String, ◌⧺◌,
  ◌==◌, string_eq, pair_eq, if◌then◌else◌, Result, ok, err, Exec, pure, raise, raise_if, lift, gets,
  modify, ◌>>=◌, ◌>>◌, value_error, key_error, refund_ceiling, Hook, run_hook, ltb,
}
use financial_engineering_sk.Prelude.Decimal.{decimal}
use financial_engineering_sk.Prelude.Dict.{Dict, lookup, insert}
use financial_engineering_sk.Prelude.Int.{ℤ, pos, ◌+ℤ◌, ◌-ℤ◌, leb_ℤ, ltb_ℤ}

-- `status` is "received" or "settled"; every modification is of the type "refund".
pub record Modification : Type 0 where
  pub psp_reference : String
  pub reference : String
  pub amount : ℤ
  pub is_settled : Bool

pub record Payment : Type 0 where
  pub psp_reference : String
  pub captured : ℤ
  pub currency : String
  pub modifications : List Modification

-- `Processor`
pub record RefundProcessor : Type 0 where
  pub payments : Dict String Payment
  pub merchant_paid_out : ℤ
  pub seq : ℕ

unfoldable pub seed_capture : String → ℤ → String → RefundProcessor → RefundProcessor
seed_capture psp_reference captured currency p = record p {
  payments =
      insert psp_reference
        (record {
          psp_reference = psp_reference;
          captured = captured;
          currency = currency;
          modifications = [];
        })
        p.payments;
}

-- self.payments[psp_reference]
abbrev pub payment_or_raise : Option Payment → Result Payment
payment_or_raise none = err key_error
payment_or_raise (some payment) = ok payment

abbrev pub payment_of : String → Exec RefundProcessor Payment
payment_of psp_reference p = (payment_or_raise (lookup psp_reference p.payments), p)

unfoldable pub captured_amount : String → Exec RefundProcessor ℤ
captured_amount psp_reference = do payment ← payment_of psp_reference; pure payment.captured

unfoldable pub currency_of : String → Exec RefundProcessor String
currency_of psp_reference = do payment ← payment_of psp_reference; pure payment.currency

unfoldable pub list_modifications : String → Exec RefundProcessor (List Modification)
list_modifications psp_reference = do payment ← payment_of psp_reference; pure payment.modifications

unfoldable pub find_modification : String → List Modification → Option Modification
find_modification reference [] = none
find_modification reference (m ∷ ms) =
    if m.reference == reference then some m else find_modification reference ms

-- %03d
abbrev padded : ℕ → String
padded n = if ltb n 10 then "00" ⧺ decimal n else if ltb n 100 then "0" ⧺ decimal n else decimal n

unfoldable pub new_modification : ℕ → String → ℤ → Modification
new_modification seq reference amount = record {
  psp_reference = "MOD" ⧺ padded seq;
  reference = reference;
  amount = amount;
  is_settled = false;
}

-- What a refund does with the modification that the payment already has, if it has one.
unfoldable pub refund_payment :
    String → ℤ → String → Payment → Option Modification → Exec RefundProcessor Modification
unfolding new_modification
refund_payment psp_reference amount reference payment (some m) p = (ok m, p)
refund_payment psp_reference amount reference payment none p =
    let m = new_modification (p.seq + 1) reference amount in
    (
      ok m,
      record p {
        payments =
            insert psp_reference
              (record payment { modifications = payment.modifications ++ m ∷ [] }) p.payments;
        seq = p.seq + 1;
      },
    )

unfoldable pub refund : String → ℤ → String → Exec RefundProcessor Modification
unfolding refund_payment
refund psp_reference amount reference = do
  payment ← payment_of psp_reference
  refund_payment psp_reference amount reference payment
      (find_modification reference payment.modifications)

abbrev settle_modification : Modification → Modification
settle_modification m = record m { is_settled = true }

abbrev received_total : List Modification → ℤ
received_total [] = pos 0
received_total (m ∷ ms) =
    let rest = received_total ms in if m.is_settled then rest else m.amount +ℤ rest

abbrev all_received : Dict String Payment → ℤ
all_received [] = pos 0
all_received ((k, payment) ∷ payments) =
    received_total payment.modifications +ℤ all_received payments

abbrev settle_payment : String × Payment → String × Payment
settle_payment (k, payment) =
    (k, record payment { modifications = map settle_modification payment.modifications })

-- The nightly run.
unfoldable pub settle : RefundProcessor → RefundProcessor
settle p = record p {
  payments = map settle_payment p.payments;
  merchant_paid_out = p.merchant_paid_out +ℤ all_received p.payments;
}

-- `ProcessorClient`: the two legs of a round trip are its hooks.
pub record Client : Type 0 where
  pub before_send : Hook
  pub after_send : Hook

-- A row of the book; its state is always "sent".
pub record RefundAttempt : Type 0 where
  pub psp_reference : String
  pub request_id : String
  pub amount : ℤ
  pub modification : Modification

abbrev pub Book : Type 0
Book = Dict (String × String) RefundAttempt

-- `RefundBook.committed`
unfoldable pub committed : String → Book → ℤ
committed psp_reference [] = pos 0
committed psp_reference ((k, a) ∷ book) =
    let rest = committed psp_reference book in
    if a.psp_reference == psp_reference then a.amount +ℤ rest else rest

-- `RefundBook.find`
unfoldable pub find_attempt : String → String → Book → Option RefundAttempt
find_attempt psp_reference request_id book = lookup (psp_reference, request_id) book

-- `RefundBook.record`
unfoldable pub record_attempt :
    String → String → ℤ → Modification → Option RefundAttempt → Book → Book
record_attempt psp_reference request_id amount m none book =
    insert (psp_reference, request_id)
      (record {
        psp_reference = psp_reference;
        request_id = request_id;
        amount = amount;
        modification = m;
      })
      book
record_attempt psp_reference request_id amount m (some attempt) book = book

-- What all workers of the shop share: the processor and the book.
pub record Shop : Type 0 where
  pub processor : RefundProcessor
  pub book : Book

abbrev on_wire : {A : Type 0} → Exec RefundProcessor A → Exec Shop A
on_wire m s = let (r, p) = m s.processor in (r, record s { processor = p })

-- A call of the client: out, at the processor, and back.
unfoldable pub round_trip : {A : Type 0} → Client → Exec RefundProcessor A → Exec Shop A
round_trip client m = do
  run_hook client.before_send
  a ← on_wire m
  run_hook client.after_send
  pure a

unfoldable pub refundable_amount : Client → String → Exec Shop ℤ
refundable_amount client psp_reference = do
  promised ← gets (λ (s : Shop). committed psp_reference s.book)
  captured ← round_trip client (captured_amount psp_reference)
  pure (captured -ℤ promised)

-- The book is written after the processor has answered.
unfoldable pub send_refund : Client → String → ℤ → String → Exec Shop Modification
send_refund client psp_reference amount request_id = do
  m ← round_trip client (refund psp_reference amount ("refund-" ⧺ request_id))
  modify (λ (s : Shop). record s {
    book =
        record_attempt psp_reference request_id amount m (lookup (psp_reference, request_id) s.book)
          s.book;
  })
  pure m

unfoldable pub refund_within_ceiling : Client → String → ℤ → String → Exec Shop Modification
refund_within_ceiling client psp_reference amount request_id = do
  remaining ← refundable_amount client psp_reference
  raise_if (ltb_ℤ remaining amount) refund_ceiling
  send_refund client psp_reference amount request_id

-- A click that the book knows is answered from it.
unfoldable pub issue_known :
    Client → String → ℤ → String → Option RefundAttempt → Exec Shop Modification
issue_known client psp_reference amount request_id (some already) = pure already.modification
issue_known client psp_reference amount request_id none =
    refund_within_ceiling client psp_reference amount request_id

unfoldable pub issue_refund : Client → String → ℤ → String → Exec Shop Modification
issue_refund client psp_reference amount request_id = do
  raise_if (leb_ℤ amount (pos 0)) value_error
  already ← gets (λ (s : Shop). find_attempt psp_reference request_id s.book)
  issue_known client psp_reference amount request_id already
