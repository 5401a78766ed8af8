-- ===== src/Embedding.antt =====
-- ruwren-sys/src/wren_vm.c: the interface for C, namely handles and the slots of a call.
pub mod Handles
pub mod Links
pub mod Linked
pub mod CallHandles
pub mod Arity
pub mod Stubs
pub mod Slots
pub mod Reserve
