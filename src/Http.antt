-- ===== src/Http.antt =====
-- src/WebServer.cpp: the HTTP server of the file transfer.
pub mod Url
pub mod Multipart
pub mod Routing
pub mod Body
pub mod Request
pub mod Dispatch
pub mod Response
mod Tests
