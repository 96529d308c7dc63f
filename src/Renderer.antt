-- ===== src/Renderer.antt =====
-- include/pug/pug_renderer.h: from the tree of nodes to HTML.
pub mod Escape
pub mod Pieces
pub mod Node
pub mod Spec
pub mod Appends
pub mod Tags
pub mod Refines
pub mod Grown
