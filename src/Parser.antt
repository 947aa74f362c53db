-- ===== src/Parser.antt =====
-- parser/: the wire-format parser.
pub mod Lexer
pub mod Tokens
pub mod Message
pub mod Build
pub mod Validate
pub mod Contents
pub mod Clean
pub mod Accepts
pub mod Api
pub mod Beside
pub mod Blanks
pub mod Sizes
pub mod Splits
pub mod Parts
pub mod Described
