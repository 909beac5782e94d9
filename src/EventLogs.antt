-- ===== src/EventLogs.antt =====
-- eventlogs_windows.go, part by part.
pub mod Utf16
pub mod Reading
pub mod Calls
pub mod Properties
