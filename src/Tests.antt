-- ===== src/Tests.antt =====
-- Runs of the model, and the theorems at inputs that meet their hypotheses.
pub mod Tokens
mod Pages
mod Witnesses
mod Trees
mod Chains
mod Programs
mod Releases
mod Endless
mod Attributes
mod Indented
