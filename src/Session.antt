-- ===== src/Session.antt =====
-- The package session: the data of a session, its two stores, and the middleware that loads and saves
-- it.
pub mod Data
pub mod Memory
pub mod Table
pub mod Writer
pub mod Cookies
mod Tests
