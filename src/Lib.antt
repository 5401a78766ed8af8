-- ===== src/Lib.antt =====
-- A model of the core of the Wren virtual machine that ruwren carries in ruwren-sys/src, with
-- theorems about it. The compiler turns source text into tokens, resolves names to stack slots,
-- upvalues and module symbols, and emits bytecode; the virtual machine runs it on values, of which
-- lists, maps and strings have algorithms of their own. The Rust crates wrap this machine.
--
-- Which file models what:
--   * Utf8: ruwren-sys/src/wren_utils.c, `wrenUtf8EncodeNumBytes`, `wrenUtf8Encode`,
--     `wrenUtf8Decode`, `wrenUtf8DecodeNumBytes`. The lexer encodes escapes with them.
--   * Hash: ruwren-sys/src/wren_value.c, `hashBits` and `hashString`, on 64 and 32 bits.
--   * Map: ruwren-sys/src/wren_value.c, `ObjMap` with `findEntry`, `insertEntry`, `resizeMap`,
--     `wrenMapGet`, `wrenMapSet`, `wrenMapClear` and `wrenMapRemoveKey`. The equality and the hash
--     of keys are an interface, `Keys`; a write through a null entry is `none`. The children hold
--     the order of the slots (Slots), searching (Probe, Insert), writing one slot (Write),
--     rehashing (Resize) and the operations on a whole map (Methods, Remove). `Models` is the
--     invariant: the array is in order, the count is right, and the load is at most 75 per cent of
--     the capacity.
--   * Lexer: ruwren-sys/src/wren_compiler.c from `isName` to `nextToken`. State has the tokens and
--     the `Parser`, Scan the characters and comments, Number the number literals, Name the names
--     and keywords, Literal and Literal/Raw the strings, Next `nextToken`; Keywords is about
--     the table of keywords, Progress and its children about where the loops go. Pointers into the
--     source are indices. The loops of `nextToken` and of strings begin with a test whether the
--     character that is read lies behind the terminating zero, which the source does not test: then
--     `is_overrun` is set, and nothing more is modelled.
--   * Symbols: ruwren-sys/src/wren_utils.c, the symbol tables, and ruwren-sys/src/wren_vm.c,
--     `wrenDeclareVariable` and `wrenDefineVariable`.
--   * Scopes: ruwren-sys/src/wren_compiler.c, "Variables and scopes": `declareVariable` in a local
--     scope, `pushScope`, `popScope`, `discardLocals`, `resolveLocal`, `addUpvalue`,
--     `findUpvalue`, `resolveNonmodule` and `resolveName`. It uses Symbols for module names. The
--     chain of compilers through `parent` is a list. Depths are one more than in the source. A
--     write behind the array `upvalues` is `none`.
--   * Sequence: ruwren-sys/src/wren_utils.{h,c}, the buffers, `wrenPowerOf2Ceil` and
--     `wrenValidateIndex`; ruwren-sys/src/wren_value.c, `wrenListInsert`, `wrenListIndexOf` and
--     `wrenListRemoveAt`; ruwren-sys/src/wren_primitive.c, `validateIndexValue` and
--     `calculateRange`. A double is seen as an integer, an infinity, or neither.
--   * Find: ruwren-sys/src/wren_value.c, `wrenStringFind`. Shifts is about the table of shifts,
--     Search about the loop. The table has no slot for the byte 255, which the source writes to
--     and reads from all the same; the model drops the write and reads 0.
--   * Values: ruwren-sys/src/wren_value.h, values and the structs of objects. Equal is
--     `wrenValuesSame`, `wrenValuesEqual`, `hashObject` and `hashValue` with NaN tagging; Laws and
--     Hashes are about them.
--   * Classes: ruwren-sys/src/wren_value.c, `wrenNewSingleClass`, `wrenNewClass`, `wrenBindMethod`
--     and `wrenBindSuperclass`. Bind is `wrenBindMethodCode` of wren_compiler.c and `bindMethod` of
--     wren_vm.c for a method with a body; its fuel bounds the instructions that are passed.
--   * Gc: ruwren-sys/src/wren_value.c from `wrenGrayObj` to `wrenBlackenObjects`,
--     `wrenCollectGarbage` of wren_vm.c and `wrenMarkCompiler` of wren_compiler.c. Children lists
--     what the collector grays for an object, Pointers all that it points to, and Reach compares
--     what can be reached by either; Mark is about the gray stack, Sweep about the sweep, Collect
--     about a whole collection. The list through `next` is a list of addresses. The pointer of an
--     open upvalue into a stack is no pointer to an object.
--   * Emit: ruwren-sys/src/wren_compiler.c, `emitOp` to `emitJump`, `patchJump`, the loops and
--     `break`, with what `READ_SHORT`, `JUMP` and `LOOP` of wren_vm.c read. Jumps is about patching,
--     Breaks about the placeholders of `break`, Loops about `endLoop`; Branches has `and_`, `or_`,
--     `conditional` and `ifStatement`, and Choices is about the last two.
--   * Signature: ruwren-sys/src/wren_compiler.c, the text of method signatures and their symbols.
--     Bounds is about the size of the buffer, Reading and Distinct about reading the text back.
--   * Capture: ruwren-sys/src/wren_vm.c, `captureUpvalue` and `closeUpvalues`. The chain through
--     `next` is a list of addresses, and a pointer into the stack an index.
--   * Fibers: ruwren-sys/src/wren_core.c, `runFiber` and the primitives of fibers;
--     ruwren-sys/src/wren_vm.c, `runtimeError`. Calls is about calls and yields, Errors about the
--     unwinding of an error.
--   * Iterate: ruwren-sys/src/wren_core.c, the `iterate` primitives of lists, maps and strings.
--     Visits is about loops over a sequence, which ask until there is no next iterator.
--   * Strings: ruwren-sys/src/wren_value.c, `wrenStringFromCodePoint`, `wrenStringCodePointAt` and
--     `wrenNewStringFromRange`, and two primitives of wren_core.c. CodePoints is about the code points
--     of a text.
--   * Interpreter: ruwren-sys/src/wren_vm.c, `runInterpreter` with `checkArity`, `callForeign` and
--     `methodNotFound`; ruwren-sys/src/wren_vm.h, `wrenCallFunction`, `wrenGetClassInline` and
--     `wrenIsFalsyValue`; `wrenEnsureStack` of wren_value.c. State is the machine, whose `ip` is the
--     local variable of the loop, Calls the calls and returns, Instructions the opcodes of
--     ruwren-sys/src/wren_opcodes.h, Step what each of them does. Table compares them with the
--     compiler's tables, Moves and Effects are about single instructions, Heights about a round,
--     Slots about a run against the compiler's count of slots, Enter and Returns about calls, and
--     Branches about the code of `&&`, `||`, `?:` and `if` as it runs.
--   * Embedding: ruwren-sys/src/wren_vm.c, handles (Handles, Links, Linked), the stub functions by
--     which C calls methods (CallHandles, Arity, Stubs), and the slots of the interface (Slots,
--     Reserve). A failed assertion is `none`, or a `fault` in a run of the loop.
--   * Prelude: shared names and lemmas. Tests: the theorems at concrete inputs.
--
-- Fuel. A probe of a map has one unit for each slot, and its loop comes back to its start after
-- that many steps. The lexer's loops have one unit for each character that is left and one to see
-- the end, the search for a string one for each place and two more, the collector's loop one for
-- each object, as each turns gray once at most, `endLoop` one for each byte of code, and
-- `runtimeError` what it is given, which has to be more than the number of fibers that it aborts.
-- Where fuel can run out the result is `none`, so that a theorem which gives a result says that the
-- fuel is enough; but `endLoop` then leaves placeholders, which its theorem rules out. Skipping
-- white space, comments and digits stops where the fuel ends, which is at the terminating zero.
--
-- Words. Numbers are unbounded except where the code relies on their width: hashes, the load limit
-- of a map, the length in `wrenUtf8Decode`, hex escapes and the distance of a range keep their
-- wrap-around. A map's count and the line counter are not bounded. `wrenPowerOf2Ceil` is meant for
-- numbers up to 2 ^ 30, and `wrenEnsureSlots` gives `none` where it would need it for more.
--
-- Not modelled: the instructions that define classes, construct foreign objects or import modules,
-- and the C functions behind primitive and foreign methods, which are parameters of the loop; the
-- constructors of objects but classes, upvalues, closures, instances and fibers, so that allocation
-- always succeeds, and temporary roots; the parser behind the lexer, whose output inside a branch is
-- an argument; constants; the text of error messages; strings, maps and new objects in the slots of
-- the interface; debug output; the Rust crates. `strtoll` and `strtod` belong to the C library and
-- are parameters, as are the comparison of `double`s, the sizes of types, and what an array holds
-- above the top of a stack.
pub mod Prelude
pub mod Utf8
pub mod Hash
pub mod Map
pub mod Lexer
pub mod Symbols
pub mod Scopes
pub mod Sequence
pub mod Find
pub mod Values
pub mod Classes
pub mod Gc
pub mod Emit
pub mod Signature
pub mod Capture
pub mod Fibers
pub mod Iterate
pub mod Strings
pub mod Interpreter
pub mod Embedding
pub mod Tests
