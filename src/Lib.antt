-- ===== src/Lib.antt =====
-- A development about the programs of this repository that move money: the examples
-- examples/payment-ledger-reconciliation and examples/prediction-market-bot and, of evals/behavioral,
-- the repositories ledger-wallet-overdraft, payments-refund-ceiling-in-flight and
-- ledger-payout-restatement.
--
-- The payment example. A worker (safe_flow.py, SafeFlow) pays an invoice: it pins an intent in the
-- store (store.py, Store), asks the processor about it and sends the charge (fake_processor.py,
-- Processor), and posts the capture to the ledger (ledger.py, Ledger) through the store. A delivery
-- announces a settlement, whose figures are taken from the processor's answer and posted. The
-- processor's report is compared to the ledger (ledger.py, Reconcile); what differs is recorded in the
-- store as a break, and an approved correction closes one break by one more entry. money.py (Money)
-- has the checks that all of them share.
--
-- The prediction-market example. The bot (safe_bot.py, Bot) commits an intent, holds what the order can
-- owe in two assets, and sends the order to the venue (fake_venue.py, Venue), which signs for it by
-- its client key and logs numbered events. The bot takes the events, holds back what comes ahead of
-- its turn, applies them one by one to its orders and balances, and credits a resolution from the
-- position that the venue tells. unsafe_bot.py (Bot/Unsafe) is the counter-example beside it.
--
-- How code and definitions correspond. A class is a record of its state (Ledger, FakeProcessor, Store,
-- FakeVenue, SafeBot, and Flow for what a worker sees); a method is an action on that state,
-- `Exec S A`, that returns or raises and keeps what was written before a raise (Prelude/Effects). A
-- lock makes a method one step, so what threads do is a list of calls in the order in which they took
-- the lock. A worker knows the processor only as a `ProcessorApi` (Processor/Interface), which the
-- fake processor implements (Processor/Answers).
--   money.py          Money
--   ledger.py         Ledger/Record, Validate, Queries, Commit; Reconcile/Break, Rows, Report, Lines,
--                     ReadLines, Total, Figures, Compare
--   fake_processor.py Processor, Processor/State, Interface, Answers
--   store.py          Store, Store/Record
--   safe_flow.py      SafeFlow/Worker, Answers, Capture, Pay, Webhook, Correct
--   fake_venue.py     Venue/Messages, State, Placing, Trading, Payouts, History (the script)
--   safe_bot.py       Bot/State, Balances, Holds, Sending, Fills, Settlement, Intake
--   unsafe_bot.py     Bot/Unsafe
--   ledger-wallet-overdraft: Wallet; payments-refund-ceiling-in-flight: Refunds;
--   ledger-payout-restatement: Payouts
-- The other files below these have the theorems, each named for what it proves; Tests has runs and
-- the theorems at concrete inputs. `commit_once` of the ledger is Ledger.Commit.commit_once, that of
-- the store is Store.commit_effect. `SafeBot` is two records: the book that the handlers of events read
-- and write, and the state of the stream around it. A method of the bot that works on one order has
-- that order's record beside the book (`Focus`), and the row in `orders` is that record again when the
-- method has returned or raised. Bot/Triples states what holds after a method that returns,
-- Bot/Account is about the dict `reserved` beside the orders' own figures, and Bot/Reached has the runs
-- of a bot as a relation between its states.
--
-- Values. What comes from outside the payment example is a `Value` (Value.antt): none, a bool, an int, a
-- text, a list, a tuple, a dict, or something else that is or is not true. Integers are unbounded, as
-- in Python; `//` and `%` round down (Prelude/Division). Two values are equal if they are of one class;
-- Python's True == 1 plays no part. Sets are lists without repetitions, dicts are lists in the order of
-- insertion. An event of the venue is a record with a body by its type. The metadata of a market are
-- natural numbers, and the payout of a share and the tick, by which the code divides, are positive.
--
-- Choices. Texts that people read (memos, details of breaks) are kept as the parts of their f-strings
-- (Prose), the bot's alerts as one constructor for each message with the values that it quotes; the
-- dust of settlements is a fraction that is not brought to lowest terms. isalpha and isupper are read
-- on the ASCII letters; an invoice id is a text. A callback (`seam`, `fault`, `after_entry`,
-- `fail_after_send`, a client's `before_send` and `after_send`) returns or raises and does not call
-- back in. The text that sha256 makes of a break's content is a parameter, `digest`, and so is the
-- HMAC of an order request, `sign_request`; the authority that a bot asks for positions answers as a
-- function of the market. The loop of `_drain` has one round for each event that is held back, which is
-- enough; all other recursion is on lists or on the number of digits.
--
-- Not modelled: unsafe_flow.py, the demos, the test support and the JSON fixtures of the examples, and
-- the snapshots of the bots; the other repositories of evals/behavioral and all oracles; scripts.
pub mod Prelude
pub mod Value
pub mod Prose
pub mod Money
pub mod Ledger
pub mod Reconcile
pub mod Processor
pub mod Store
pub mod SafeFlow
pub mod Wallet
pub mod Venue
pub mod Bot
pub mod Refunds
pub mod Payouts
pub mod Tests
