-- ===== src/ReadingLog.antt =====
-- src/ReadingLog.h: the log of pages, settings and events.
pub mod Line
pub mod Arm
pub mod Lines
pub mod Publish
pub mod Store
pub mod Tests
