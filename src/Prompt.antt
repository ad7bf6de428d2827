-- ===== src/Prompt.antt =====
-- The script of the saved console page, prompt_embed_static.js: one module for each of its parts.
pub mod Animation
pub mod Aria
pub mod Autocomplete
pub mod Container
pub mod Control
pub mod EventTarget
pub mod EventTypes
pub mod IframeIo
pub mod Keys
pub mod LabelInput
pub mod ListenerMap
pub mod QueryData
pub mod RateThrottler
pub mod RunQueue
pub mod Select
pub mod Selection
pub mod StructsMap
pub mod Logger
pub mod MenuButton
pub mod NumberFormat
pub mod Ratings
pub mod Timer
pub mod Viewport
pub mod XhrIo
mod Examples
