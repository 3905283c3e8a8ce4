-- ===== src/Model.antt =====
-- The wire formats that the components exchange (internal/model).
pub mod Uap
pub mod Insight
pub mod Mention
pub mod Samples
mod Examples
