-- ===== src/Database.antt =====
-- database: contexts, the query builder, the repository and transactions.
pub mod Context
pub mod Query
pub mod Models
pub mod Reading
pub mod Repository
pub mod Transaction
mod Tests
