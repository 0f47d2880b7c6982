-- ===== src/Bytes.antt =====
-- include/bytes: buffers of bytes, and the streams that read and write them.
pub mod Buffer
pub mod Stream
