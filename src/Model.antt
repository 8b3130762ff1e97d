-- ===== src/Model.antt =====
-- The data model: backend/app/models and backend/app/core/config.py.
pub mod Status
pub mod Rows
pub mod Settings
pub mod Db
pub mod Result
pub mod Query
