-- ===== src/Gguf.antt =====
-- The GGUF container reader, src/q3_gguf.c and src/q3_gguf.h.
pub mod Cursor
pub mod Types
pub mod Value
pub mod File
pub mod Metadata
pub mod Tensors
pub mod Open
pub mod Access
pub mod Tests
