-- ===== src/Compiler.antt =====
-- internal/compiler/compiler.go: the passes that check a module graph and build the plan.
pub mod Scan
pub mod Idents
pub mod Merge
pub mod State
pub mod Imports
pub mod Symbols
pub mod Inherit
pub mod Requests
pub mod Vars
pub mod Flows
pub mod Plan
