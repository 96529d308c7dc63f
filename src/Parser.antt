-- ===== src/Parser.antt =====
-- include/pug/pug_parser.h: from the list of tokens to the tree of nodes. The messages that a debug
-- build prints are left out.
pub mod Context
pub mod Attributes
pub mod Node
pub mod Tree
pub mod Places
pub mod Links
pub mod Moves
pub mod Pieces
pub mod Nodes
pub mod Indented
pub mod Order
pub mod Listed
pub mod Preorder
pub mod Endless
pub mod Total
pub mod Document
pub mod Free
pub mod Release
