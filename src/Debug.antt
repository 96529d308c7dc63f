-- ===== src/Debug.antt =====
-- include/pug/pug_bug.h: the names of the types of tokens, and the functions that print lists of
-- tokens and trees.
pub mod Print
pub mod Lines
use c_pug.Common.{Bytes, codes}
use c_pug.Tokens.{
  TokenType, token_tag, token_class, token_id, token_attribute, token_text, token_indentation,
  token_dot, token_pipe, token_comment, token_block_comment, token_interpolation, token_code,
  token_doctype, token_include, token_extends, token_mixin, token_call, token_eof,
}

unfoldable pub token_type_to_string : TokenType → Bytes
token_type_to_string token_tag = codes "TAG"
token_type_to_string token_class = codes "CLASS"
token_type_to_string token_id = codes "ID"
token_type_to_string token_attribute = codes "ATTRIBUTE"
token_type_to_string token_text = codes "TEXT"
token_type_to_string token_indentation = codes "INDENTATION"
token_type_to_string token_dot = codes "DOT"
token_type_to_string token_pipe = codes "PIPE"
token_type_to_string token_comment = codes "COMMENT"
token_type_to_string token_interpolation = codes "INTERPOLATION"
token_type_to_string token_code = codes "CODE"
token_type_to_string token_doctype = codes "DOCTYPE"
token_type_to_string token_include = codes "INCLUDE"
token_type_to_string token_extends = codes "EXTENDS"
token_type_to_string token_block_comment = codes "BLOCK_COMMENT"
token_type_to_string token_mixin = codes "MIXIN"
token_type_to_string token_call = codes "CALL"
token_type_to_string token_eof = codes "EOF"
token_type_to_string _ = codes "UNKNOWN"
