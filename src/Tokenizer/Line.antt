-- ===== src/Tokenizer/Line.antt =====
-- `create_token` and `tokenize_line`. `mem n t` says whether a `realloc` succeeds that is asked for
-- when the list holds `n` tokens and `t` is added. The line that the function prints to the
-- terminal is left out.
pub mod Marks
pub mod Text
pub mod Start
