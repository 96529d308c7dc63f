-- ===== src/Tokens.antt =====
-- include/pug/pug_tokens.h: the enumerations and structures that the other parts share.
-- A `char*` that may be NULL is an `Option Bytes`. A growing array is the list of the items that
-- are stored, the fields `count` and `capacity` of the source, and `slots`, the number of places in
-- the block that the last successful allocation returned.
use c_pug.Common.{ℕ, ◌^◌, List, Option, Bytes}

pub data TokenType : Type 0 where
  token_tag token_class token_id token_attribute token_text token_indentation : TokenType
  token_dot token_pipe token_comment token_block_comment token_interpolation : TokenType
  token_code token_doctype token_include token_extends token_mixin token_call : TokenType
  token_eof token_count : TokenType

pub data AttributeType : Type 0 where
  attr_string attr_boolean attr_expression attr_class attr_id : AttributeType

pub record Attribute : Type 0 where
  pub name : Option Bytes
  pub value : Option Bytes
  pub type : AttributeType

pub record AttributeList : Type 0 where
  pub attributes : List Attribute
  pub count : ℕ
  pub capacity : ℕ
  pub slots : ℕ

pub record Token : Type 0 where
  pub type : TokenType
  pub value : Option Bytes
  pub line : ℕ
  pub column : ℕ
  pub depth : ℕ
  pub attributes : Option AttributeList

pub record TokenList : Type 0 where
  pub tokens : List Token
  pub count : ℕ
  pub capacity : ℕ
  pub slots : ℕ

-- A pointer to a node is its place in the heap; NULL is `none`.
abbrev pub Ptr : Type 0
Ptr = ℕ

pub record AstNode : Type 0 where
  pub tag : Option Bytes
  pub text_content : Option Bytes
  pub node_type : TokenType
  pub attributes : Option AttributeList
  pub classes : Option (List Bytes)
  pub class_count : ℕ
  pub id : Option Bytes
  pub depth : ℕ
  pub line : ℕ
  pub column : ℕ
  pub parent : Option Ptr
  pub children : List Ptr
  pub children_count : ℕ
  pub children_capacity : ℕ
  pub children_slots : ℕ
  pub is_void : ℕ
  pub is_inline : ℕ
  pub is_block : ℕ

pub record NodeList : Type 0 where
  pub nodes : List Ptr
  pub count : ℕ
  pub capacity : ℕ
  pub slots : ℕ

pub record ParserContext : Type 0 where
  pub tokens : Option TokenList
  pub current_token : ℕ
  pub current_depth : ℕ
  pub current_parent : Option Ptr
  pub root_node : Option Ptr
  pub use_tabs : ℕ
  pub tab_size : ℕ
  pub strict_mode : ℕ

-- The values of an `unsigned int`.
abbrev pub uint_mod : ℕ
uint_mod = 2 ^ 32
