-- ===== src/Tests.antt =====
-- The theorems at concrete inputs: two attempts to pay an invoice of 12.00 EUR, its settlement, and
-- what is refused.
mod Data
mod LedgerTests
mod ProcessorTests
mod StoreTests
mod FlowTests
mod RunTests
mod ShopTests
mod BotData
mod BotTests
mod HoldTests
