-- ===== src/WebSocket.antt =====
-- src/WebSocketsServer.cpp: the server's end of a WebSocket connection.
pub mod Socket
pub mod Frame
pub mod Handshake
pub mod Session
mod Tests
pub mod Sha1
pub mod Base64
pub mod Clients
