-- ===== src/Auth.antt =====
-- internal/auth: the login throttle, the sessions, and the requests that use both.
pub mod RateLimit
pub mod Session
pub mod Password
pub mod Users
pub mod Csrf
pub mod Requests
mod Tests
