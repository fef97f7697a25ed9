-- ===== src/Lib.antt =====
-- A model of voidwalk, a disassembler for ELF and PE binaries.
--
-- The program maps a binary read-only (src/address_space.hpp), tells its container format and reads
-- its section table (src/disassembler/format), picks a decoder for its machine (src/arch/decoder.cpp)
-- and sweeps the code sections one instruction at a time (src/disassembler/disassembler.cpp). Each
-- instruction is decoded by table (src/arch/x86_64) and appended to a store in blocks that a frontend
-- reads while the sweep goes on (src/chunk_store.hpp).
--
-- - AddressSpace: src/address_space.hpp and .cpp. The mapping is a function from offsets to bytes,
--   with no value where a read raises SIGBUS. `read_type` takes the width for its type parameter.
-- - ChunkStore: src/chunk_store.hpp. Slots has the lemmas on blocks, Invariant the well-formedness,
--   Contents what a reader sees, Table when the block table moves.
-- - Arch: src/arch/arch.hpp and src/arch/decoder.cpp.
-- - Format: src/disassembler/format. Section, Names (the loop over a section name), Elf and Pe (the
--   section readers and the constructors), Detect (determine_filetype and make_disassembler), and
--   Totality. Elf/Entries has the places of the fields that an ELF reader has to read.
-- - X86: src/arch/x86_64. Types has the table types, Opcode the enumeration, Rows and Operands the
--   macros of the tables. OneByte, X87, TwoByte and Vex hold the rows and the functions that resolve
--   an opcode to its row; Merge is the function of that name. Decoder is X86Decoder::decodeLine, and
--   Decoder/Bytes its state: the bytes consumed, the fields, and the exception for a sixteenth byte.
--   Decoder/Prefix and Decoder/Operands are the parts of it before and after the opcode.
-- - Sweep: src/disassembler/disassembler.hpp and .cpp. The object is a record that each round changes;
--   a run ends with the object and the exception that left it, if any. Rows says what a sweep adds,
--   Tiling and Ending that it does so and ends, Prepared how it begins, Published what a reader finds
--   afterwards. Filled says that every slot has an instruction.
-- - X86/Render: the constructor of x86_64 in src/arch/x86_64/x86_64_instruction.hpp. Memory has the
--   memory operand, Operand the list and the text of the operands, Branches the control flow;
--   MachineCode reads the bytes back, Encoded and Immediates compare the loops over the immediates.
--   X86/Registers has the names of the registers.
-- - Session: src/analysis_session.hpp and .cpp. Worker says where the thread stands in its lambda, and
--   `worker_step` does its next store. Queries has the accessors, Bytes the raw bytes, Protocol the
--   steps of both threads, Joined the end of the worker, Refinement what a frontend can tell.
-- - Gui: src/gui. Layout is formatDisasmText, Fallback the raw rows, Rows the session and its
--   snapshots, Strings and Symbols the sidebar, Model and Pane the table of the disassembly with the
--   signals that its view gets.
-- - Tui: src/tui. Syntax is the tokenizer, Tokens and Colours what it keeps, Search rowIndexFor, Rows
--   the session.
-- - Cli: src/cli and src/main.cpp. HexDump, Outputs (the files of --print) and Arguments.
-- - Common: names that all share; Common/Errors has the exceptions as values.
-- - Examples: small binaries and instructions on which the definitions run.
--
-- A table is the list of the statements that build it, in their order, and a row is looked up by
-- running them at one index. Integers are natural numbers with their wrap-around written out where it
-- can happen. The loop over prefixes has 16 rounds and reads a byte in each, of at most 15. The loop
-- over a section name has one round more than the file has bytes: it stops at the end of
-- the file, and an offset that wraps begins again below it.
--
-- The loop over a section has one round more than the section has bytes, since a round that goes on
-- has moved forward. The stop token answers by the number of the question.
--
-- Text is the list of its characters' codes. The tokenizer has a round for each character, the binary
-- search one for each row of its range, the hex dump one for each byte: each is enough, as is proved.
-- A worker that is joined ends within four stores; the sweep is one of them, and a sweep that used up
-- its rounds would leave the worker where it is. A pane that reads outside a store has no value.
--
-- Not modelled: the widgets and the drawing of both frontends, the writing to streams, the emulated
-- registers, which are always zero, and the Windows side of the mapping. The growth of std::vector
-- and the answers of the operating system are parameters, and so is the allocator's answer when a
-- sweep reserves its block tables, the one allocation whose size a header claims. No other
-- allocation fails.
pub mod Common
pub mod AddressSpace
pub mod ChunkStore
pub mod Arch
pub mod Format
pub mod X86
pub mod Session
pub mod Sweep
pub mod Gui
pub mod Tui
pub mod Cli
mod Examples
