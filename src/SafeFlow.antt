-- ===== src/SafeFlow.antt =====
-- examples/payment-ledger-reconciliation/safe_flow.py: the safe path. A worker is bound to one
-- authority and one processor, which it knows only through `ProcessorApi`.
pub mod Worker
pub mod Answers
pub mod Capture
pub mod Pay
pub mod Webhook
pub mod Correct
pub mod Correction
pub mod Delivery
pub mod Keeps
pub mod Opening
pub mod Sending
pub mod Paid
pub mod Recovery
