-- ===== src/Venue.antt =====
-- examples/prediction-market-bot/fake_venue.py: the stub venue.
pub mod Messages
pub mod State
pub mod Placing
pub mod Trading
pub mod Payouts
pub mod History
pub mod Once
pub mod Resend
pub mod Fees
pub mod Lost
