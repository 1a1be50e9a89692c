-- ===== src/Seats.antt =====
-- pulse/proxy/occupancy.py: who occupies a seat on which account. Book holds the seats and their
-- expiry, Calls the calls that begin and end on a seat, Choice the placing of a holder; the other
-- modules prove.
pub mod Book
pub mod Calls
pub mod Choice
pub mod Keyed
pub mod Operations
pub mod Counting
pub mod Capacity
pub mod Refusal
pub mod Inflight
