-- ===== src/HtmlTags.antt =====
-- include/c-pug-base.h: the table of HTML tags, the functions that look tags up in it, and the one
-- that prints it by categories. Info is `print_tag_info`.
pub mod Types
pub mod Table
pub mod Queries
pub mod Laws
pub mod VoidTags
pub mod Printing
pub mod Info
