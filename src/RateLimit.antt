-- ===== src/RateLimit.antt =====
-- Rate limiting (backend/app/ratelimit, backend/app/services/rate_limiter_service.py and
-- backend/app/core/client_ip.py). The arithmetic of one bucket is in Bucket, the store of buckets
-- in Limiter, and the identity that keys an unauthenticated caller in ClientIp.
pub mod Config
pub mod Bucket
pub mod Limiter
pub mod ClientIp
mod Tests
