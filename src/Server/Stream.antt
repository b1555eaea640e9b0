-- ===== src/Server/Stream.antt =====
-- The messages that the server reads out of its byte stream.
pub mod Total
pub mod Messages
