-- ===== src/Auth.antt =====
-- internal/auth: keys and device ids, signed tokens, challenges, the shared secret, and the older
-- sessions. `Platform` is what this package calls of Go's and other libraries.
pub mod Platform
pub mod Jwk
pub mod Token
pub mod Challenge
pub mod Session
pub mod Secret
mod Tests
pub mod Sample
