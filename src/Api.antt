-- ===== src/Api.antt =====
-- src/api: the rate limit of the public API.
pub mod RateLimit
