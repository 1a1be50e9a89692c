-- ===== src/Tests.antt =====
-- The theorems at concrete inputs, and small runs of the definitions.
mod Rules
mod Wallets
mod Occupancy
mod Throttles
mod Sessions
mod Access
mod Offices
mod Assignment
mod Rollups
mod Lending
mod Moves
mod Gateway
