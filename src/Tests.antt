-- ===== src/Tests.antt =====
-- The theorems applied at concrete servers, texts and tables.
pub mod Sample
mod Scene
mod Lock
mod Text
mod Commands
mod Launcher
mod Bar
mod Notify
mod Config
mod Msg
mod Input
