-- ===== src/Msg.antt =====
-- phfs/msg.h and phfs/msg.c: messages over a byte stream, framed by a mark and escapes.
pub mod Header
pub mod Frame
pub mod Reader
pub mod Send
pub mod Words
pub mod Store
pub mod Chunks
pub mod HeaderTrip
pub mod RoundTrip
