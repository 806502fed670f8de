-- ===== src/Lib.antt =====
-- The ARM simulator of arm_simulator-1.4: a processor of the ARMv5 instruction set over a block of
-- memory, which a debugger drives one instruction at a time.
--
-- The processor is a record `Core` of a cycle count, the registers and the memory. A function of the
-- source that takes an `arm_core` is an action on a core, in the monad of Base/Outcome: it returns
-- a value and the core that it leaves, or it stops where the C behaviour is undefined (an index out of
-- bounds, a variable read uninitialised, a shift by 32 or more) or the process ends (a failed assertion,
-- exit). A function of gdb_protocol.c is an action on a `Gdb`, the session with its core, and one of
-- scanner.l on a `ParserData`, which holds the session. Numbers are native; a uint32_t keeps its `% 2 ^ 32` written out.
--
--   Base            Boolean tests, machine words, the laws of the bits, outcomes, and the rules by
--                   which actions keep an invariant
--   Util            arm_simulator-1.4/util.h and util.c: Fields, Set, Shifts and Reverse on the bits of
--                   each macro and function
--   Constants       arm_simulator-1.4/arm_constants.h
--   Text            text as lists of bytes, and the functions of the C library on text that
--                   gdb_protocol.c calls, as documented; Text/Hex and Numbers on hexadecimal digits
--   Memory          arm_simulator-1.4/memory.c: Memory/Bounds on sizes; Words, Anywhere, Stored and
--                   RoundTrip on words, Bytes on bytes and Halves on halves
--   Registers       arm_simulator-1.4/registers.c: Registers/Banks and Sharing on the table of banks
--   Core            arm_simulator-1.4/arm_core.c: Core/User on user mode, Core/Sound on the invariant
--   Exception       arm_simulator-1.4/arm_exception.c, and arm_create of arm_core.c
--   Condition       arm_simulator-1.4/cond_shift_calculator.c, the flags and the condition field
--   Shifter         the same file, the shifter operand; Carry and ByRegister are on LSL, LSR and ROR
--                   by a register
--   DataProcessing  arm_simulator-1.4/arm_data_processing.c: Flags, Operations and Dispatch hold the
--                   definitions, UpdateFlags, Alu, Compare and Signed the laws
--   LoadStore       arm_simulator-1.4/arm_load_store.c: Address, Single and Multiple hold the
--                   definitions; Count, Range, Store and Load are about LDM and STM, Byte about
--                   STRB and LDRB
--   Branch          arm_simulator-1.4/arm_branch_other.c
--   Instruction     arm_simulator-1.4/arm_instruction.c: fetch, decode, execute. Fetch and Beyond are on
--                   the fetch and what the memory gives it, Immediate and Branching on a whole step,
--                   PushPop on a store and a load of a byte
--   Debug           arm_simulator-1.4/debug.c: the table of debugged files, over `strcmp` as a
--                   parameter; Debug/Search, Insert, Add and Full are about it
--   Gdb             arm_simulator-1.4/gdb_protocol.c: Gdb, Words, Handlers, Transfers and Analysis hold
--                   the definitions; WordsBack is on the words of a packet, Frame on its frame, Sound
--                   and Session on the invariant of the core, Continue on `cont`, Restore and Snapshot
--                   on the registers, Dump and Escape on the memory, over Actions
--   Scanner         arm_simulator-1.4/scanner.l: Errors on the buffer of invalid bytes, Packets on the
--                   tokens, Sessions on both listeners of arm_simulator-1.4/arm_simulator.c
--   Remote          what a debugger sends and can expect of a memory, towards gdb_protocol.c and
--                   scanner.l: Requests on its packets, Serve on one request, Refines on a stream
--   Names           arm_simulator-1.4/arm_constants.c
--   Trace           arm_simulator-1.4/trace.c: Trace/Nesting on the stack of locations
--   SendIrq         arm_simulator-1.4/send_irq.c: the interrupt that its arguments name
--   Printing        arm_simulator-1.4/arm_core.c: the text of arm_print_state; Blocks and Screen
--                   are about it
--   Options         arm_simulator-1.4/arm_simulator.c: the options of the command line; Plain is about
--                   those that open no file
--   Simulator       arm_simulator-1.4/arm_simulator.c: main, from the options to the end of the gdb
--                   listener; Answers is on what a client gets
--   Soundness       the invariant of the core, over each action up to a step, and over whole runs
--   Tests           each result applied at a concrete input
--
-- How the parts interact: `arm_step` fetches through the core, `cond_verifier` reads the flags of the
-- CPSR, `decode` chooses among the groups of instructions, these read and write registers and memory
-- through the core, and a result other than 0 is raised as an exception. A loop of the source recurses
-- on the number of rounds that it makes, which the source fixes: 4 less the address for a word, 2 for a
-- half, 31 for the count of set bits, 15 for a block transfer. The search of debug.c recurses on one more
-- than the number of files, which its range, shorter in each round, cannot use up. The search of send_irq
-- makes 8 rounds at most, one more than there are names. The loop of `cont` may
-- never end: it is given a number of rounds, and `Stop.unfinished` says that they were too few. The scan of
-- a stream recurses on a bound on its tokens, which the number of its bytes is.
--
-- gdb and the irq listener share the core: a handler runs under the lock, so a session is a sequence of
-- whole tokens and whole interrupts, in any order. A stream is the list of all bytes that gdb sends, and
-- what the session writes to the socket is a list of bytes too; a write after the socket is shut down for
-- writing ends the process. The byte orders of the host and of the build are arguments.
--
-- What malloc finds in a new block is an argument, as is whether it succeeds. Calls of the trace
-- functions and of the print functions change no state of the processor and are left out; Trace models
-- what they do.
--
-- Not modelled: the sockets and the start of threads in arm_simulator.c and send_irq.c, the printing of
-- debug messages, scanner.c, which flex generates from scanner.l, and csapp.c, a copy of a library.
pub mod Base
pub mod Util
pub mod Constants
pub mod Text
pub mod Memory
pub mod Registers
pub mod Core
pub mod Exception
pub mod Condition
pub mod Shifter
pub mod DataProcessing
pub mod LoadStore
pub mod Branch
pub mod Instruction
pub mod Soundness
pub mod Debug
pub mod Gdb
pub mod Scanner
pub mod Remote
pub mod Simulator
pub mod Names
pub mod SendIrq
pub mod Options
pub mod Trace
pub mod Printing
mod Tests
