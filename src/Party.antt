-- ===== src/Party.antt =====
-- The app's own screens, Demolition/Demolition/*.swift: a party is a folder of the database, its
-- lobby screens write to it and listen to it, and the last screen tells who won.
pub mod Database
pub mod Lobby
pub mod Flags
pub mod GameOver
mod Examples
