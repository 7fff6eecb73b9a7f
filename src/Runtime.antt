-- ===== src/Runtime.antt =====
-- internal/runtime/runtime.go: what the runtime computes for a plan: the values of expressions, the
-- names and lines of a step, the text of an assertion's log, and paths into JSON values.
pub mod Value
pub mod Path
pub mod Eval
pub mod Steps
