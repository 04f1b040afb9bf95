-- ===== src/RateLimit.antt =====
-- generic-agent/src/osa/generic_agent/rate_limit.py: the budget of requests, the limiter in memory,
-- the limiter in PostgreSQL and the middleware. Times are microseconds; the source's are seconds as
-- floats, so its rounding below a microsecond is not modelled.
pub mod Config
pub mod Memory
pub mod Postgres
pub mod Middleware
pub mod Callers
pub mod Windows
pub mod Traffic
pub mod SharedWindows
mod Tests
