-- ===== src/Tests.antt =====
-- Runs of the model at concrete data, and the theorems at inputs that meet their hypotheses.
mod Sample
mod Runs
mod Witnesses
mod Generated
mod Listed
mod SelfTested
mod Machine
mod Fetched
mod Materialized
mod Prefixed
mod Bounded
mod Recorded
mod Audited
