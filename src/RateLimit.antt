-- ===== src/RateLimit.antt =====
-- backend/rate_limit.py: the token buckets, the key of a request, and the middleware.
pub mod Buckets
pub mod Keys
pub mod Middleware
