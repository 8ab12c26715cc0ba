-- ===== src/FileTransfer.antt =====
-- The reduced file-transfer and WebDAV server of src/CrossPointWebServer.cpp.
pub mod Decode
pub mod Escape
pub mod Path
pub mod Request
pub mod Multipart
pub mod Storage
pub mod Reply
pub mod Listing
pub mod Browse
pub mod Change
pub mod Copy
pub mod Routes
pub mod Tests
