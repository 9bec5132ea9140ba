-- ===== src/Web.antt =====
-- internal/web: the HTTP server; here its rate limiter.
pub mod RateLimit
