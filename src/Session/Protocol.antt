-- ===== src/Session/Protocol.antt =====
-- The frontend and the worker thread of src/analysis_session.cpp as a step relation: every store of
-- the worker is a step of its own, and so is every call of the frontend.
use voidwalk.Common.{
  ℕ, not, ◌||◌, Bool-cases, ◌≡◌, refl, sym, inl, inr, Bool, true, false, String, Option, none, some,
  Error, length_error, runtime_error, file_changed, bad_alloc, out_of_fuel, Result, ok, err, Text,
}
use voidwalk.AddressSpace.{AddressSpace, FileStatus}
use voidwalk.ChunkStore.{VectorPolicy}
use voidwalk.Format.Detect.{Binary, FileType}
use voidwalk.Sweep.{Run, returned, threw}
use voidwalk.Session.{
  Session, DecodeState, Opened, Worker, no_worker, sweeping, caught, noted, ending, over,
  new_session, what, set_status, change_state, worker_step, advance, handle, end_sweep, sweep_of,
  after_sweep, start_worker, adopt, open_binary, open_with, load_binary, compact_session,
  is_decoding, loaded,
}

unfoldable pub note_of : Option Error → String
unfolding what
note_of none = ""
note_of (some e) = what e

unfoldable pub is_file_changed : Option Error → Bool
is_file_changed (some file_changed) = true
is_file_changed _ = false

abbrev state : Bool → String → Bool → Option DecodeState
state running note changed =
    some (record { running = running; note = note; file_changed = changed })

-- The DecodeState by where the worker stands
pub data Agrees : Worker → Option DecodeState → Type 0 where
  unloaded : Agrees no_worker none
  in_sweep : Agrees sweeping (state true "" false)
  in_catch : (e : Error) → Agrees (caught e) (state true "" false)
  in_note : Agrees noted (state true (what file_changed) false)
  at_end : (o : Option Error) → Agrees (ending o) (state true (note_of o) (is_file_changed o))
  at_rest : (o : Option Error) → Agrees (over o) (state false (note_of o) (is_file_changed o))

abbrev pub IsCoherent : Session → Type 0
IsCoherent s = Agrees s.worker s.decode_state

module _ (policy : VectorPolicy) where
  -- One step of either thread
  pub data Move : Session → Session → Type 0 where
    by_worker : (stop : ℕ → Bool) (s : Session) → Move s (worker_step policy stop s)
    by_open :
        (stop : ℕ → Bool) (file : FileStatus) (path : Text) (s : Session)
        → Move s (open_binary policy stop file path s).1
    by_compact : (s : Session) → Move s (compact_session policy s)
    by_status : (message : Text) (s : Session) → Move s (set_status message s)

  pub data Reached : Session → Type 0 where
    at_first : Reached new_session
    later : (s t : Session) → Reached s → Move s t → Reached t

  handle-Agrees :
      (e : Error) (s : Session)
      → s.decode_state ≡ state true "" false
      → IsCoherent (handle policy e s)
  unfolding handle change_state note_of is_file_changed
  handle-Agrees file_changed s h = rw h in_note
  handle-Agrees (length_error text) s h = rw h (at_end (some (length_error text)))
  handle-Agrees (runtime_error text) s h = rw h (at_end (some (runtime_error text)))
  handle-Agrees bad_alloc s h = rw h (at_end (some bad_alloc))
  handle-Agrees out_of_fuel s h = rw h (at_end (some out_of_fuel))

  after_sweep-Agrees : (r : Run) → Agrees (after_sweep r) (state true "" false)
  unfolding after_sweep note_of is_file_changed
  after_sweep-Agrees (returned d) = at_end none
  after_sweep-Agrees (threw d out_of_fuel) = in_sweep
  after_sweep-Agrees (threw d (length_error text)) = in_catch (length_error text)
  after_sweep-Agrees (threw d (runtime_error text)) = in_catch (runtime_error text)
  after_sweep-Agrees (threw d file_changed) = in_catch file_changed
  after_sweep-Agrees (threw d bad_alloc) = in_catch bad_alloc

  end_sweep-Agrees :
      (stop : ℕ → Bool) (o : Option Opened) (s : Session)
      → s.decode_state ≡ state true "" false
      → IsCoherent (end_sweep policy stop o s)
  unfolding end_sweep note_of is_file_changed
  end_sweep-Agrees stop none s h = rw h (at_end none)
  end_sweep-Agrees stop (some o) s h = rw h (after_sweep-Agrees (sweep_of policy stop o))

  advance-Agrees :
      (stop : ℕ → Bool) (w : Worker) (known : Option DecodeState) (s : Session)
      → s.decode_state ≡ known
      → Agrees w known
      → w ≡ s.worker
      → IsCoherent (advance policy stop w s)
  unfolding advance change_state note_of is_file_changed
  advance-Agrees stop no_worker known s h unloaded same = rw h (rw (sym same) unloaded)
  advance-Agrees stop sweeping known s h in_sweep same = end_sweep-Agrees stop s.disassembler s h
  advance-Agrees stop (caught e) known s h (in_catch _) same = handle-Agrees e s h
  advance-Agrees stop noted known s h in_note same = rw h (at_end (some file_changed))
  advance-Agrees stop (ending o) known s h (at_end _) same = rw h (at_rest o)
  advance-Agrees stop (over o) known s h (at_rest _) same = rw h (rw (sym same) (at_rest o))

  worker_step-Agrees :
      (stop : ℕ → Bool) (s : Session) → IsCoherent s → IsCoherent (worker_step policy stop s)
  unfolding worker_step
  worker_step-Agrees stop s h = advance-Agrees stop s.worker s.decode_state s refl h refl

  open_with-Agrees :
      (stop : ℕ → Bool) (r : Result (AddressSpace × Binary × FileType)) (path : Text) (s : Session)
      → IsCoherent s
      → IsCoherent (open_with policy stop r path s).1
  unfolding open_with set_status adopt start_worker
  open_with-Agrees stop (err e) path s h = h
  open_with-Agrees stop (ok (space, binary, kind)) path s h = in_sweep

  compact-Agrees : (s : Session) → IsCoherent s → IsCoherent (compact_session policy s)
  unfolding compact_session
  compact-Agrees s h = elim (Bool-cases (not (loaded s) || is_decoding s)) [
    | inl e ↦ rw e h
    | inr e ↦ rw e h
  ]

  Move-Agrees : (s t : Session) → Move s t → IsCoherent s → IsCoherent t
  unfolding open_binary set_status
  Move-Agrees s t (by_worker stop _) h = worker_step-Agrees stop s h
  Move-Agrees s t (by_open stop file path _) h =
      open_with-Agrees stop (load_binary policy file) path s h
  Move-Agrees s t (by_compact _) h = compact-Agrees s h
  Move-Agrees s t (by_status message _) h = h

  pub Reached-IsCoherent : (s : Session) → Reached s → IsCoherent s
  Reached-IsCoherent s at_first = unloaded
  Reached-IsCoherent s (later before _ r m) = Move-Agrees before s m (Reached-IsCoherent before r)
