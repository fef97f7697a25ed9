-- ===== src/Session.antt =====
-- src/analysis_session.hpp and src/analysis_session.cpp: the loaded binary, and the worker thread
-- that decodes it. Session::open is `open_binary`.
pub mod Protocol
pub mod Joined
pub mod Refinement
pub mod Bytes
pub mod Queries
use voidwalk.Common.{
  ℕ, zero, suc, ◌+◌, ltb, leb, if◌then◌else◌, Bool, true, false, not, ◌&&◌, ◌||◌, String, List, [],
  ◌∷◌, ◌++◌, Option, none, some, Error, length_error, runtime_error, file_changed, bad_alloc,
  out_of_fuel, Result, ok, err, ◌>>=◌, Text, codes,
}
use voidwalk.AddressSpace.{AddressSpace, FileStatus, open_file, size}
use voidwalk.Arch.{Arch, arch_name, is_64bit, make_decoder}
use voidwalk.ChunkStore.{VectorPolicy, empty_store}
use voidwalk.Format.Section.{Header, Sections}
use voidwalk.Format.Detect.{
  FileType, elf, pe, neither, Binary, determine_filetype, make_disassembler, binary_arch,
  binary_sections, binary_entry,
}
use voidwalk.Sweep.{Disassembler, Run, returned, threw, decode, compact}

-- `what()`; the text of bad_alloc is the one of libstdc++.
unfoldable pub what : Error → String
what (length_error text) = text
what (runtime_error text) = text
what bad_alloc = "std::bad_alloc"
what file_changed = "[voidwalk] : file changed on disk.\n"
what out_of_fuel = ""

pub record DecodeState : Type 0 where
  pub running : Bool
  pub note : String
  pub file_changed : Bool

-- What `disassembler_` points to: the binary's headers, the reference to the address space, and the
-- object that the sweep changes.
pub record Opened : Type 0 where
  pub contents : AddressSpace
  pub binary : Binary
  pub object : Disassembler

-- Where the worker thread stands in its lambda: `noted` is between the two stores for a FileChanged.
-- A sweep that has ended has its exception, if any.
pub data Worker : Type 0 where
  no_worker : Worker
  sweeping : Worker
  caught : Error → Worker
  noted : Worker
  ending : Option Error → Worker
  over : Option Error → Worker

-- The fields of Session, with the worker of `decodeThread_`.
pub record Session : Type 0 where
  pub space : Option AddressSpace
  pub disassembler : Option Opened
  pub file_path : Text
  pub format : String
  pub status : Text
  pub decode_state : Option DecodeState
  pub decode_generation : ℕ
  pub worker : Worker

abbrev pub new_session : Session
new_session = record {
  space = none;
  disassembler = none;
  file_path = [];
  format = "";
  status = [];
  decode_state = none;
  decode_generation = 0;
  worker = no_worker;
}

-- A Disassembler as its constructor leaves it
abbrev pub new_object : Disassembler
new_object = record {
  instructions = empty_store;
  addresses = empty_store;
  ready_count = 0;
  next_emit_index = 0;
  printed = [];
  polls = 0;
}

unfoldable pub set_status : Text → Session → Session
set_status message s = record s { status = message }

unfoldable pub loaded : Session → Bool
loaded s = elim s.disassembler [ none ↦ false | some d ↦ true ]

unfoldable pub is_decoding : Session → Bool
is_decoding s = elim s.decode_state [ none ↦ false | some state ↦ state.running ]

-- A store into the DecodeState that the worker holds
unfoldable pub change_state : (DecodeState → DecodeState) → Session → Session
change_state f s = record s {
  decode_state = elim s.decode_state [ none ↦ none | some state ↦ some (f state) ];
}

-- The end of a sweep, as the `try` block sees it. A sweep that has used up its rounds would be one
-- that goes on for ever: its worker stays in it.
unfoldable pub after_sweep : Run → Worker
after_sweep (returned d) = ending none
after_sweep (threw d out_of_fuel) = sweeping
after_sweep (threw d e) = caught e

unfoldable pub has_ended : Worker → Bool
has_ended no_worker = true
has_ended (over o) = true
has_ended _ = false

unfoldable pub swept_object : Run → Disassembler
swept_object (returned d) = d
swept_object (threw d e) = d

module _ (policy : VectorPolicy) where
  -- `disasm->decode(stopToken)`, the token answering the questions by their number
  unfoldable pub sweep_of : (ℕ → Bool) → Opened → Run
  unfolding decode make_decoder binary_arch binary_sections
  sweep_of stop o =
      decode policy o.contents (make_decoder (binary_arch o.binary)) false stop
        (binary_sections o.binary).text o.object

  unfoldable end_sweep : (ℕ → Bool) → Option Opened → Session → Session
  unfolding sweep_of after_sweep swept_object
  end_sweep stop none s = record s { worker = ending none }
  end_sweep stop (some o) s =
      let run = sweep_of stop o in
      record s {
        disassembler = some (record o { object = swept_object run });
        worker = after_sweep run;
      }

  -- The handler of an exception, up to the flag
  unfoldable handle : Error → Session → Session
  unfolding change_state what
  handle Error.file_changed s =
      let t = change_state (λ state. record state { note = what Error.file_changed }) s in
      record t { worker = noted }
  handle e s =
      let t = change_state (λ state. record state { note = what e }) s in
      record t { worker = ending (some e) }

  -- The next store of the worker, by where it stands
  unfoldable advance : (ℕ → Bool) → Worker → Session → Session
  unfolding end_sweep handle change_state
  advance stop no_worker s = s
  advance stop sweeping s = end_sweep stop s.disassembler s
  advance stop (caught e) s = handle e s
  advance stop noted s =
      let t = change_state (λ state. record state { file_changed = true }) s in
      record t { worker = ending (some Error.file_changed) }
  advance stop (ending o) s =
      let t = change_state (λ state. record state { running = false }) s in
      record t { worker = over o }
  advance stop (over o) s = s

  unfoldable pub worker_step : (ℕ → Bool) → Session → Session
  unfolding advance
  worker_step stop s = advance stop s.worker s

  -- The wait for the worker: it runs until it has ended.
  unfoldable pub join_rounds : (ℕ → Bool) → ℕ → Session → Session
  unfolding worker_step has_ended
  join_rounds stop zero s = s
  join_rounds stop (suc rounds) s =
      let rest = join_rounds stop rounds (worker_step stop s) in
      if has_ended s.worker then s else rest

  -- `decodeThread_ = {}`. A worker has four stores at most, the end of its sweep among them.
  unfoldable pub join : (ℕ → Bool) → Session → Session
  unfolding join_rounds
  join stop s = join_rounds stop 4 s

  unfoldable start_worker : Session → Session
  start_worker s = record s {
    decode_state = some (record { running = true; note = ""; file_changed = false });
    decode_generation = suc s.decode_generation;
    worker = sweeping;
  }

  unfoldable pub run_decode : (ℕ → Bool) → Session → Session
  unfolding loaded join start_worker
  run_decode stop s = if loaded s then start_worker (join stop s) else s

  -- The worker that is joined holds its own pointer to the previous binary, so that what it still
  -- does to it is lost with it: the join comes before the members change.
  unfoldable pub adopt : (ℕ → Bool) → AddressSpace → Binary → Text → String → Session → Session
  unfolding join start_worker
  adopt stop space binary path format s =
      let joined = join stop s in
      start_worker (record joined {
        space = some space;
        disassembler = some (record { contents = space; binary = binary; object = new_object });
        file_path = path;
        format = format;
      })

  -- The `try` block and the second look at the type, which reads the bytes that the first has read
  -- and so throws nothing.
  unfoldable pub load_binary : FileStatus → Result (AddressSpace × Binary × FileType)
  unfolding open_file make_disassembler determine_filetype
  load_binary file = do
    space ← open_file file
    (message, binary) ← make_disassembler space
    kind ← determine_filetype space
    ok (space, binary, kind)

  unfoldable format_name : FileType → String
  format_name elf = "ELF"
  format_name pe = "PE"
  format_name neither = "PE"

  unfoldable open_with :
      (ℕ → Bool) → Result (AddressSpace × Binary × FileType) → Text → Session → Bool × Session
  unfolding set_status adopt what format_name
  open_with stop (err e) path s = (false, set_status (codes "Open failed: " ++ codes (what e)) s)
  open_with stop (ok (space, binary, kind)) path s = (
    true,
    set_status (codes "Loaded " ++ path) (adopt stop space binary path (format_name kind) s),
  )

  unfoldable pub open_binary : (ℕ → Bool) → FileStatus → Text → Session → Bool × Session
  unfolding open_with load_binary
  open_binary stop file path s = open_with stop (load_binary file) path s

  unfoldable compact_opened : Option Opened → Option Opened
  unfolding compact
  compact_opened none = none
  compact_opened (some o) =
      some (record o { object = compact policy o.contents none false (λ n. false) o.object })

  -- Session::compact
  unfoldable pub compact_session : Session → Session
  unfolding loaded is_decoding compact_opened
  compact_session s =
      if not (loaded s) || is_decoding s
      then s
      else record s { disassembler = compact_opened s.disassembler }
