-- ===== src/Tokenizer.antt =====
-- The tokenizer of src/q3_tokenizer.c: UTF-8, the symbols that stand for bytes, the pieces of a
-- text, the merges, and the codes of a text and back.
pub mod Utf8
pub mod Symbols
pub mod Pieces
pub mod Merges
pub mod Vocab
pub mod Encode
pub mod RoundTrip
pub mod Special
mod Tests
