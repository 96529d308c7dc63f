-- ===== src/Tokenizer/Sound.antt =====
-- Every token that the tokenizer makes carries the number and the depth of its line and a value of
-- the form that its type promises.
pub mod Values
pub mod Marks
pub mod Text
pub mod Progress
pub mod Loops
pub mod Lines
pub mod File
pub mod Brackets
pub mod Opening
