-- ===== src/Main.antt =====
-- src/main.c: the command line program, and its examples of regular expressions.
pub mod Events
pub mod Lre
pub mod Callbacks
pub mod Examples
pub mod Safe
pub mod Variables
pub mod Program
pub mod Ends
pub mod Counts
