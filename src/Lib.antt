-- ===== src/Lib.antt =====
-- A model of an IA-32 PC emulator: the processor's integer arithmetic with its lazily evaluated
-- flags, its way to memory, the string instructions, the pair of interrupt controllers, the I/O
-- APIC, and the DMA controllers.
--
-- The parts and how they interact. An arithmetic instruction leaves its result, its operands and
-- its kind in four words (`m_lr`, `m_lop1`, `m_lop2`, `m_laux`) and computes no flag; conditional
-- jumps, the carry operations and PUSHF ask for flags, which are then computed from those words.
-- Memory is reached through the translation buffer, whose tags say which accesses go to the memory
-- directly; the others walk the page tables, go to a device, or drop the decoded traces of the code
-- that they overwrite. Segment registers bring the bases and the privilege level. A string
-- instruction reads and writes memory or a port in each round, stops at a fault with the registers
-- of the rounds before it, and is run again until its count is 0. Devices raise lines of the
-- interrupt controllers, the slave stands behind line 2 of the master, and the master raises the
-- processor's line; the processor answers it and gets a vector. The floppy controller raises a DMA
-- request, and the DMA controller moves its buffer to or from memory.
--
-- Base: machine words, bit operations and their laws bit by bit, C arrays, facts by evaluation over
--   all bytes.
-- Cpu.State: the fields of the class CPU that the functions below use, the enumeration of the lazy
--   operations (`src/cpu/cpu.h`), and `cpu_get_cycles` and `cpu_request_fast_return`
--   (`src/cpu/cpu.cpp`).
-- Cpu.Eflags: `src/cpu/eflags.cpp`, each function under its name; `cf_of`, `of_of` and `af_of` are
--   the switches of `cpu_get_cf`, `cpu_get_of` and `cpu_get_af`, `condition` that of `cpu_cond`.
--   Its child modules are about the setters, the packing, the round trip and the conditions.
-- Cpu.Flags: the six flags as the getters show them, and the architecture's flags of sums,
--   differences and logic results, which the code is held to.
-- Cpu.Arith, Cpu.Shift, Cpu.MulDiv, Cpu.DoubleShift: `src/cpu/arith.cpp`. The three functions of
--   one operation on 8, 16 and 32 bits are one definition over a width; the cases of a switch are
--   functions of their own (`arith_op`, `shl_op`, `multiply`, `divide`). Cpu.Arith.Places is about reads
--   and writes through pointers to operands.
-- Cpu.Bit: `src/cpu/bit.cpp`.
-- Memory.State: the fields of the class CPU that an access to memory uses, the devices behind it as
--   a parameter (`io_handle_mmio_read` and `io_handle_mmio_write` of `src/io.cpp`), and the monad
--   of the functions that return a failure.
-- Memory.Tlb, Physical, Translate: `src/cpu/mmu.cpp`; the parts of `cpu_mmu_translate` are
--   functions of their own (`translate_small`, `pae_directory`). Code: `src/cpu/smc.cpp`, with the
--   lookup of `src/cpu/trace.cpp`. Access: `src/cpu/access.cpp`, with the macro of its callers
--   (`read_mem`, `write_mem`). Fetch: the page of the next instruction (`src/cpu/trace.cpp`) and
--   `lin2phys`. Stack: `src/cpu/stack.cpp`. Segments, Selectors: `src/cpu/seg.cpp`. Control:
--   `src/cpu/prot.cpp` and `cpu_io_check_access` of `src/cpu/io.cpp`.
-- Memory.Translations, Traces, Walk, Descriptors, StackSegment, StackTrip: about the translation
--   buffer, the traces that a write drops, the walk of the page tables, the layout of descriptors,
--   the rights to a stack segment, and pushes with their pops.
-- Memory.Keeps: what no access to memory changes until it returns or calls `cpu_exception`.
-- Strings: `src/cpu/string.cpp`. Loop has the registers at the two address sizes and the loops
--   under a prefix, Units the seven instructions over a width and an address size, Names the 42
--   functions, Handlers the handlers of `src/cpu/opcodes.cpp` that call them; ports are a parameter
--   (`io_readb` to `io_writed` of `src/io.cpp`). Resume is about runs of one instruction until its
--   count is 0, Elements, Fill and Scan about what STOS and SCAS do to memory and registers.
-- ControlFlow: `src/cpu/ctrlflow.cpp`. TaskState has the stacks that the task state segment gives
--   to the levels, the segment a task gate names and the reads of a call gate's parameters; Jumps
--   has the far jump, where `do_task_switch` is a parameter; SystemCalls has SYSENTER and SYSEXIT,
--   and Levels is about the change of level from one to the other.
-- Pic: `src/pic.cpp`. State has the controllers and the calls that leave them, Update the choice of
--   a request, the lines and the answer to the processor, Ports the command words. Bits, Scan,
--   Priority and Levels carry the search for the highest request; Sent, Accept, Cascade, Latch,
--   Initialization and EndOfInterrupt are about the operations, Valid, Commands and Reach about all
--   runs of them.
-- Dma: `src/dma.cpp`. FlipFlop has the byte access to 16 bit registers, Transfers the transfers,
--   Ports the two switches; Units and Complete are about the transfers, Bytes and Channels about
--   the registers.
-- IoApic: `src/ioapic.cpp`. State has the table and `ioapic_update`, with the messages that leave
--   for the local APIC, Registers the window in memory, Lines the devices' lines and the end of an
--   interrupt. The interrupt controllers are a parameter that `pic_vectors` fills. Sends is about
--   the messages.
-- Tests, in each part: the theorems at concrete states.
--
-- Words are natural numbers, a `uint32_t` one below 2 ^ 32, with the wrap-around written out; an
-- `int` is its bit pattern. A value `none` stands for `abort()` and for what C++ leaves undefined:
-- a shift by 32 or more in the carry getters, a signed division whose quotient does not fit. A
-- pointer that a function writes through is an argument and a result; those of CMPXCHG and XADD,
-- where the function reads a register or a second pointer as well, are a `Place`: outside the
-- registers, or a part of a register, the accumulator and the other operand included. An exception
-- of the processor is the value that the call of `cpu_exception` has; in Memory, where callers
-- pass a failure on, it is a case of `Outcome`, and so is the end of the program. The state beside
-- an exception is the one in which `cpu_exception` is called: that function goes on to the handler
-- before it returns, by `cpu_interrupt`, and what it changes (the privilege level, segments, the
-- stack, EFLAGS and the instruction pointer) is not modelled. A host pointer of the translation
-- buffer is its distance from the start of the memory. Loops are recursion on the number of
-- rounds: 24 for the lines of the I/O APIC, 8 for the searches of the interrupt controllers and
-- the channels of the DMA controllers, `current_count + 1` for a transfer, the count of
-- translations for a flush, the count capped at 65536 for a string instruction, 128 bytes for each
-- block of code, which are the loops' own bounds. The recursion of the slave's update into the
-- master's ends after one step, since the master has no line to raise but the processor's, so the
-- master's functions stand beside the general ones.
--
-- Outside the model: what the processor's main loop does when it is asked for a fast return, what
-- the local APIC does with a message, and what the floppy controller does when a transfer
-- completes; these calls, and those of the interrupt controllers to the I/O APIC, are recorded in
-- their order. The local APIC's answer is an argument of `pic_get_interrupt`. Saving of states,
-- registration of ports and log messages are left out. The decoder, the other opcodes, the rest of
-- the control flow (the task switch, interrupts, far calls and returns), the floating point units
-- and the other devices are not modelled: the first three build on what is here, the floating point
-- units on the SoftFloat library, and the other devices are independent state machines or host
-- input and output.
pub mod Base
pub mod Cpu
pub mod Pic
pub mod Memory
pub mod Dma
pub mod Strings
pub mod IoApic
pub mod ControlFlow
