-- ===== src/Examples.antt =====
-- Runs of the programs on concrete data, and each theorem at an input that meets its hypotheses.
mod Fixtures
mod Signing
mod Hub
mod Brokering
mod Gatekeeping
mod Passes
mod Sealing
mod Confirming
mod Racing
mod Publishing
mod Claiming
mod Approving
mod Beating
mod Refreshing
