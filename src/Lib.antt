-- ===== src/Lib.antt =====
-- The Intel 8080 emulator of retronet-8080, modelled and proved: the processor core (package cpu), and
-- the machine around it (package machine): its mapped memory, its buses and devices, its front panel and
-- its debugger; and the runner of test programs (package conformance). The panel calls `Step` and `Jam`
-- of the processor, which read and write the memory and the I/O bus that they are given; the debugger
-- runs the panel, and a test runs the debugger.
--
-- The parts of the program, and the modules:
-- - cpu/types.go and cpu/opcode.go: Cpu/Types and Cpu/Opcode, the codes of registers, pairs and
--   conditions, the opcode, the instruction and the timing.
-- - cpu/alu_native.go and cpu/alu_backend.go: Cpu/Alu. `nativeAdd`, `nativeSub`, `nativeLogic` and the
--   methods of `nativeBackend` are native_add, native_sub, native_logic, native_alu and so on.
-- - cpu/errors.go: Cpu/Errors. A call returns `ok`, `err`, or `panicked` where the code would call a
--   method of a nil interface.
-- - cpu/memory.go and cpu/io.go: Cpu/Bus. The interfaces Memory and IO are records of functions on
--   the state of an implementation; MemoryLaws, RamLaws and IoLaws say what a client may rely on, and
--   Cpu/Bus/Flat is about FlatMemory and Ports.
-- - cpu/decoder.go: Cpu/Codes (unassigned opcodes), Cpu/Mnemonic (names) and Cpu/Decoder (lengths,
--   states, cycles, and an entry of the table that `Decode` reads).
-- - cpu/cpu.go: Cpu/State, the record CPU8080 and its accessors.
-- - cpu/execute.go and cpu/alu.go: Cpu/Dispatch says which case of the two switches of `execute8080`
--   an opcode selects, Cpu/Perform has the bodies of the cases, Cpu/Execute the methods they call.
--   Cpu/Core is the little language of these bodies: a function from the processor and the two buses
--   to a result and the next state. What the code assigns before an error stays assigned.
-- - cpu/step.go: Cpu/Step, with `Step` as step and `Jam` as jam.
-- - cpu/helpers.go: Cpu/Encode, a function for each mnemonic; `J`, `C`, `R`, `IN` and `OUT` are
--   jump_on, call_on, return_on, in_port and out_port.
-- - cpu/disasm.go: Cpu/Disasm.
-- - machine/memory.go, with the regions and `ValidateRange` of machine/profile.go: Machine/Memory.
-- - machine/frontpanel.go: Machine/FrontPanel, its state and controls; Machine/FrontPanel/Cycles, `Step`
--   and `Jam` of the panel as step_panel and jam_panel, cycle by cycle under READY;
--   Machine/FrontPanel/Running, `Run`, a recursion on the steps left to its limit; and
--   Machine/FrontPanel/Snapshot, `Snapshot`, `PendingInterrupt` and `AttachSwitches`.
-- - machine/io.go: Machine/Callbacks, the callback bus. What the callbacks and the observers share with
--   each other are the devices, a state that the bus carries and that a callback is given and returns.
-- - machine/peripheral.go: Machine/Peripherals, the owners of the ports of a callback bus, and
--   Machine/Peripherals/Register. Where a peripheral lies among the devices is a Place.
-- - machine/terminal.go: Machine/Terminal, the terminal as a device, over any writer.
-- - machine/observable_memory.go: Machine/Observed, a memory over a base memory, with its observers.
-- - machine/profile.go: Machine/Profiles, the table, and Machine/Profiles/Loads, the loads. The optional
--   interfaces byteLoader and romLoader are the record Loaders of an implementation, each an option.
-- - machine/debugger.go: Machine/Debugger, the breakpoints; Machine/Debugger/Events, `nextEvent`;
--   Machine/Debugger/Stepping, `Step` and `Run` as debug_step and debug_run, which call `Run` of the
--   panel for one step; and Machine/Debugger/Recording, the observers that `NewDebugger` adds to the
--   memory and the bus, the lists they fill, and how `Step` takes and clears them.
-- - conformance/suite.go: Conformance, `RunCase` and `RunSuite`. The context of a case is one value, the
--   debugger, which has the panel, the processor, the memory and the bus.
-- - conformance/synthetic.go: Conformance/Synthetic, the cases of `SyntheticSuite`.
--
-- The modules below a component have the theorems about it: Cpu/Safety those on ranges, Cpu/Frame on
-- what a step changes and how it ends, Cpu/Execute/Stack, Rotate and Decimal on groups of instructions,
-- Cpu/Decoder and Cpu/Encode/Fields on the tables and the executor (Cpu/Decoder/States has the states as
-- they are documented, Cpu/Decoder/Operands the operand bytes that a case uses), Machine/Memory/Map,
-- Access, Load and Rom on the mapped bus, Machine/FrontPanel/Ready, Waiting, Loop and Program on the
-- panel, Machine/Callbacks/Calls on the callback bus, Machine/Peripherals/Check, Attach, Detach, Owners
-- and Calls on the owners of ports, Machine/Terminal/Queue and Output on the terminal,
-- Machine/Debugger/Progress, Ending, Breaks, Kept, Trace, Unset, Transparent, Program and Stops on the
-- debugger, Machine/Debugger/Recording/Ports on its observers of ports, Conformance/Machines and Results
-- on the tests. Tests holds runs on concrete programs.
--
-- Numbers are naturals; a byte, a uint16 and a uint64 have their wrap-around written out (u8, u16, u64
-- of Base/Words). An array of fixed size is a function of its index. The gate-level arithmetic unit is
-- another repository's package, i8080: it is the record I8080, an instance argument, and what is said
-- of its group codes is the hypothesis IsEncoded. A backend that is not the native one is assumed to
-- return bytes for bytes, IsSound, where that is needed. The loops of the code run over a region, a
-- list of bytes, the operands or the cycles of an instruction, the ports of a bus, or up to the limit of
-- a run, and are structural recursions on what is left. The loop of the debugger's `Run` has no count
-- that goes down, since a step may execute no instruction: it is given as many rounds as its limit,
-- which are enough because a round that does not end the run has executed an instruction. The READY callback and the observer of the panel are pure
-- functions of what they are given; its atomic fields are fields, and a call is one step.
--
-- Not modelled: the text of the error messages and of the reasons of a breakpoint, which are data; the
-- locks (each operation is one step); a callback that changes the bus which calls it; a debugger on
-- another memory or bus than its panel has; a trace sink that does more than keep its events;
-- the ROM conformance and the command line, which read files and flags and print.
pub mod Base
pub mod Cpu
pub mod Machine
pub mod Conformance
pub mod Tests
