-- ===== src/Spend.antt =====
-- pulse/proxy/spend_policy.py: rolling spend limits of a member or a loan. Rule holds the rules and
-- how they are read and merged, Window the usage rows and the two ways their cost is summed, Check
-- the verdict on a request; the other modules prove.
pub mod Rule
pub mod Window
pub mod Check
pub mod Parsing
pub mod Merging
pub mod Resets
pub mod Totals
pub mod Verdict
