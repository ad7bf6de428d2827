-- ===== src/Survey.antt =====
-- The survey of the saved console page (`paidtasks`), the part of prompt_embed_static.js that asks the
-- questions and sends the answers: one module for each of its parts.
pub mod Choice
pub mod DropDown
pub mod Elision
pub mod MultiSelect
pub mod Numeric
pub mod Question
pub mod Rating
pub mod Report
pub mod Sequence
pub mod Site
pub mod TextField
pub mod Touch
pub mod Video
