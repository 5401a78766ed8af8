-- ===== src/Tests.antt =====
-- The theorems at concrete inputs, and runs of the definitions.
mod Utf8Tests
mod MapTests
mod LexerTests
mod SymbolTests
mod ScopeTests
mod SequenceTests
mod FindTests
mod GcTests
mod EmitTests
mod SignatureTests
mod CaptureTests
mod FiberTests
mod ValueTests
mod ClassTests
mod IterateTests
mod InterpreterTests
mod BranchTests
mod EmbeddingTests
