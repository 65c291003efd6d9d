-- ===== src/WebMessage.antt =====
-- include/crab/http/web_message_parser.hpp and .hxx: frames of the WebSocket protocol.
pub mod Header
pub mod Mask
pub mod Body
pub mod Layout
