-- ===== src/Examples.antt =====
-- Small ledgers, among them one sprint with an active item, a pending item that waits for it, and a
-- reservation, on which the theorems are applied.
mod Ledgers
mod Decided
mod Runs
mod Histories
mod Reserved
mod Frozen
mod Takeups
mod Seeded
mod Linked
