-- ===== src/Reconcile.antt =====
-- examples/payment-ledger-reconciliation/ledger.py, the drift detector: the report is checked for
-- its shape, and what can be compared is compared to what the ledger claims.
pub mod Break
pub mod Rows
pub mod Report
pub mod Lines
pub mod ReadLines
pub mod Figures
pub mod Compare
pub mod Total
pub mod Silence
pub mod Clean
pub mod Agreement
