-- ===== src/Tracker.antt =====
-- The visits counter of the saved console page, ga.js: one module for each of its parts.
pub mod Beacon
pub mod Calls
pub mod Campaign
pub mod Choice
pub mod FieldNames
pub mod Hits
pub mod Methods
pub mod Orders
pub mod Request
pub mod Sending
pub mod Source
pub mod Tables
pub mod Visit
