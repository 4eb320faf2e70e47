-- ===== src/Log.antt =====
-- src/log: the test log, the GLib log handlers and their hooks.
pub mod Level
pub mod Color
pub mod Message
pub mod Suppress
pub mod Tap
pub mod Hooks
