-- ===== src/Lib.antt =====
-- The interpreter, the loaders, the guest heap, the screen and the event queue of vmrp-rust, an emulator
-- of Mythroad phones.
--
-- The program. crates/vmrp-cpu interprets the machine code of an application over a memory bus.
-- crates/vmrp-abi reads the archives and the structures that applications come in, crates/vmrp-core
-- lays out the guest memory, crates/vmrp-platform serves the calls that guest code makes to its
-- host, crates/vmrp-runtime queues events and timers, and apps/vmrp-windows shows the screen. The
-- host writes code and data through the bus, sets registers, and runs the interpreter step by step.
--
-- The modules.
--   Prelude, Word: the names that all modules share, lists, integers and results over the native
--     numbers; words of 8 to 64 bits as numbers with their wrap-around, their bits and bounds.
--   Cpu.Cpsr, Cpu.Regs, Cpu.Condition: crates/vmrp-cpu/src/regs.rs (Cpsr, CpuRegs) and the condition
--     checks of execute.rs. Cpsr.Flags reads the status word as a record of flags.
--   Cpu.Memory: crates/vmrp-cpu/src/memory.rs, the trait MemoryBus as a record, and TestMemory.
--   Cpu.Decode, Cpu.Arm, Cpu.Thumb: crates/vmrp-cpu/src/decode (DecodedInstruction, arm::decode,
--     thumb::decode), with the constructors and the fields of the source.
--   Cpu.Machine: the state that execute_instruction changes, which is the memory, the registers and
--     the register writes of the trace, with a monad whose outcome is a result, a CpuError or a
--     panic. What was changed before an error stays changed.
--   Cpu.Execute: crates/vmrp-cpu/src/execute.rs, one function per arm of execute_instruction.
--   Cpu.Step: fetch.rs, decode_opcode, and Cpu::step and Cpu::run_until of cpu.rs.
--   Cpu.Safety: a logic for runs of that monad which keep every register within u32 and never panic,
--     with one module per part of execute.rs, the decoders' promises (Decoded), and the whole step.
--   Allocator: the guest heap of DsmHost in crates/vmrp-platform/src/lib.rs. Carve and Alloc for
--     alloc_raw over the list of free blocks, Free for free_raw, Spaced for what both keep, Ext for
--     the allocations of the guest and the handlers of malloc, free and realloc, Live for the free
--     blocks and the live allocations together.
--   Guest: the services of crates/vmrp-platform/src/lib.rs that work on the guest's memory alone, from
--     memcpy to strncat; Moved for memmove.
--   Strings: the C strings of crates/vmrp-platform/src/lib.rs and the numbers read from them. Compared and
--     Order for strcmp and strncmp, Scanned and Printed for strtoul, Handlers for the services.
--   Screen: the pixel buffer and the dirty region of the host in crates/vmrp-platform/src/lib.rs, and the
--     functions that draw. Draws for the pixels that a drawing may change, Region for the dirty region,
--     Tracks and Bitmaps for both together, Fill for a filled rectangle, Replaced for the arm DrawBitmap
--     of handle_dsm_callback, Text for text in the font of the phone and Text.Clipped for text in a
--     rectangle, Handlers for the services that draw. Present is the copy to the window
--     (src/presenter.rs of apps/vmrp-windows), with runs of presentations and of drawing calls but DrawBitmap in
--     Present.Runs.
--   Events: the timer commands and events that a guest leaves with the host (crates/vmrp-platform) and
--     the main loop hands to the runtime (apps/vmrp-windows/src/main.rs), Drained for that refinement, and
--     Input for the keys and the pointer of the window (src/presenter.rs of apps/vmrp-windows).
--   Runtime: crates/vmrp-runtime/src/lib.rs. Order for the queue over any calls, Deadline for the
--     timer, Stage for run_stage.
--   Abi: crates/vmrp-abi and the layout of crates/vmrp-core. Image for blob.rs and image.rs, Ext for
--     ext.rs, Mrp for mrp.rs with its directory and its files, Mr for mr.rs with the cursor, the
--     parser and the chunks. Outcome is what a parser does; Written is the place of bytes in a file.
--   Tests, in each of these: concrete runs.
--
-- Conventions. A u32 is a native number below 2 ^ 32, an i32 its bit pattern, or in Screen and Strings an
-- integer, whose sums wrap around as in a build without overflow checks; casts and wrapping
-- operations are written out. An index of a register that is 16 or more, and a subtraction of
-- unsigned numbers below 0, are panics of the model. A usize has 64 bits.
--
-- A parser that panics on a slice out of range, that ends because a vector cannot be allocated, by a panic or
-- an abort, or that is out of fuel, says so in its outcome.
--
-- Bounds. The loops over registers run over 8 or 16 indices by recursion on a number; run_until
-- recurs on its own max_steps, run_stage on its limit. The loop over an MRP directory has the length
-- of the file as fuel, since a turn takes 17 bytes or more; parse_function has one more than that
-- length for its depth, since a function takes four bytes before those within it.
-- The comparison of C strings has fuel for its rounds, and one round more than the first string has bytes
-- is enough.
--
-- Parameters. The memory bus of the interpreter and of the host, the step of a stage, the elapsed time
-- of the wall clock, the decoding of UTF-8 (String::from_utf8_lossy), whether the allocator grants a
-- vector of so many functions (Vec::with_capacity in parse_function), the bytes of the font's file and
-- the gzip decoder of flate2 are arguments of what uses them.
--
-- Not modelled: the rest of crates/vmrp-platform, which is files, sockets, dialogs and the dispatch of calls,
-- and the rest of apps/vmrp-windows, which is input and output for the most part.
pub mod Prelude
pub mod Word
pub mod Cpu
pub mod Allocator
pub mod Runtime
pub mod Events
pub mod Screen
pub mod Strings
pub mod Abi
pub mod Guest
