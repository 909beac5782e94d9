-- ===== src/Crawler.antt =====
-- crawler_files.go and crawler_wineventlog_windows.go, part by part.
pub mod Lines
pub mod Parsing
pub mod FileList
pub mod RunOnce
pub mod EventLog
pub mod Running
pub mod Together
