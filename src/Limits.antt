-- ===== src/Limits.antt =====
-- Two in-memory limiters: Window is pulse/capabilities/web/rate_limit.py and Login is
-- pulse/web/login_throttle.py. Times are microseconds on the clock that each reads.
pub mod Window
pub mod Exact
pub mod Login
