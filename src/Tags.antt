-- ===== src/Tags.antt =====
-- The tag manager of the saved console page, gtm.js: one module for each of its parts.
pub mod Layer
pub mod Masks
pub mod Permissions
pub mod Reports
pub mod Rules
pub mod Waiting
