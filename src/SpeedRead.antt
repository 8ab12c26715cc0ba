-- ===== src/SpeedRead.antt =====
-- src/SpeedRead.h: a page's words shown one at a time.
pub mod Text
pub mod Duration
pub mod Page
pub mod Reader
mod Tests
