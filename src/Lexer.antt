-- ===== src/Lexer.antt =====
-- internal/lexer: the kinds and tokens that the parser reads.
pub mod Token
pub mod State
pub mod Scan
pub mod Layout
pub mod Next
pub mod Levels
pub mod Progress
pub mod Stream
pub mod Moves
pub mod Scanned
