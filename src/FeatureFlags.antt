-- ===== src/FeatureFlags.antt =====
-- modules/featureflags: the registry of flags, the overrides and their precedence, and the cache of
-- computed flags.
pub mod Lru
pub mod Registry
pub mod Effective
pub mod Overrides
pub mod Table
pub mod Serving
mod Tests
mod TableTests
