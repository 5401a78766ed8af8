-- ===== src/Lexer.antt =====
-- The lexer of ruwren-sys/src/wren_compiler.c, from the parser's state to `nextToken`.
pub mod State
pub mod Scan
pub mod Number
pub mod Name
pub mod Literal
pub mod Next
pub mod Keywords
pub mod Progress
