-- ===== src/Bot.antt =====
-- examples/prediction-market-bot/safe_bot.py: the bot.
pub mod State
pub mod Balances
pub mod Holds
pub mod Sending
pub mod Fills
pub mod Settlement
pub mod Intake
pub mod Stream
pub mod Sync
pub mod Delivery
pub mod Log
pub mod Gaps
pub mod Payouts
pub mod Fees
pub mod Lost
pub mod Holding
pub mod Whole
pub mod AllOrNothing
pub mod Unsafe
pub mod Twice
pub mod Triples
pub mod Account
pub mod Reached
