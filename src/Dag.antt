-- ===== src/Dag.antt =====
-- node-implementation/dag.go: hash masks of transactions, the assignment of transactions to rows,
-- the row arithmetic of splits and merges, and the decision about a row.
pub mod Mask
pub mod Belongs
pub mod Rows
pub mod Decide
