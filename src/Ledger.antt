-- ===== src/Ledger.antt =====
-- examples/payment-ledger-reconciliation/ledger.py, the ledger: postings, entries, and the one
-- method that appends. Reconciliation is in Reconcile.antt.
pub mod Record
pub mod Validate
pub mod Queries
pub mod Commit
pub mod History
pub mod Books
