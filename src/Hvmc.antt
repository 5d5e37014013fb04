-- ===== src/Hvmc.antt =====
-- The C compiler, the assembler and the ELF writer of src/tools/hvmc.
pub mod Types
pub mod Opcodes
pub mod Encoder
pub mod Elf
pub mod Token
pub mod Lexer
pub mod Ast
pub mod Parser
pub mod Codegen
pub mod AsmLexer
pub mod Assembler
pub mod Preprocessor
pub mod Driver
mod Examples
mod FrontExamples
mod AsmExamples
mod DriverExamples
mod PreprocessorExamples
mod ElfExamples
