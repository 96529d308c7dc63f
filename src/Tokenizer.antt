-- ===== src/Tokenizer.antt =====
-- include/pug/pug_tokenizer.h: from the text of a file to the list of its tokens.
pub mod Chars
pub mod Indent
pub mod Scan
pub mod Line
pub mod File
pub mod Sound
pub mod Columns
