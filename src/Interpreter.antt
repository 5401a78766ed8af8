-- ===== src/Interpreter.antt =====
-- ruwren-sys/src/wren_vm.c: the interpreter loop, calls of methods and functions, and what they
-- use of wren_vm.h and wren_value.{h,c}.
pub mod State
pub mod Calls
pub mod Instructions
pub mod Step
pub mod Table
pub mod Moves
pub mod Effects
pub mod Heights
pub mod Enter
pub mod Returns
pub mod Slots
pub mod Branches
