-- ===== src/Session/Refinement.antt =====
-- What a frontend of src/analysis_session.hpp can tell of a session, as a state machine of three
-- phases that the session refines.
use voidwalk.Common.{ℕ, suc, ◌≡◌, refl, ◌⊎◌, Bool, true, false, String, Option, Error}
use voidwalk.AddressSpace.{AddressSpace}
use voidwalk.ChunkStore.{VectorPolicy}
use voidwalk.Session.{
  Session, DecodeState, Worker, no_worker, sweeping, caught, noted, ending, over, is_decoding,
}
use voidwalk.Session.Queries.{decode_note, throws_file_changed}
use voidwalk.Session.Protocol.{
  Agrees, unloaded, in_sweep, in_catch, in_note, at_end, at_rest, Reached, Reached-IsCoherent,
  note_of, is_file_changed,
}

pub data Phase : Type 0 where
  empty decoding : Phase
  done : Option Error → Phase

-- A phase, and the number of sweeps that were begun
abbrev pub View : Type 0
View = Phase × ℕ

unfoldable pub phase_of : Worker → Phase
phase_of no_worker = empty
phase_of (over o) = done o
phase_of _ = decoding

unfoldable pub view : Session → View
unfolding phase_of
view s = (phase_of s.worker, s.decode_generation)

-- The moves that a frontend is promised: a binary replaces what was there by a new sweep, and a
-- sweep comes to its end once.
pub data Allowed : View → View → Type 0 where
  begins : (p : Phase) (n : ℕ) → Allowed (p, n) (decoding, suc n)
  finishes : (o : Option Error) (n : ℕ) → Allowed (decoding, n) (done o, n)

abbrev pub Refined : View → View → Type 0
Refined v w = (v ≡ w) ⊎ Allowed v w

-- What isDecoding, decodeNote and throwIfFileChanged show of a view
unfoldable pub shows_decoding : View → Bool
shows_decoding (decoding, n) = true
shows_decoding _ = false

unfoldable pub shown_note : View → String
unfolding note_of
shown_note (done o, n) = note_of o
shown_note _ = ""

unfoldable pub shows_file_changed : View → Bool
unfolding is_file_changed
shows_file_changed (done o, n) = is_file_changed o
shows_file_changed _ = false

-- What the calls of a frontend read off a session
abbrev pub Shows : Session → View → Type 0
Shows s v =
    (is_decoding s ≡ shows_decoding v)
    × (decode_note s ≡ shown_note v)
    × (throws_file_changed s ≡ shows_file_changed v)

Shows-view :
    (w : Worker) (known : Option DecodeState) (s : Session)
    → s.worker ≡ w
    → s.decode_state ≡ known
    → Agrees w known
    → Shows s (view s)
unfolding is_decoding decode_note throws_file_changed view phase_of shows_decoding shown_note
    shows_file_changed note_of
Shows-view no_worker known s same h unloaded = rw same (rw h (refl, refl, refl))
Shows-view sweeping known s same h in_sweep = rw same (rw h (refl, refl, refl))
Shows-view (caught e) known s same h (in_catch _) = rw same (rw h (refl, refl, refl))
Shows-view noted known s same h in_note = rw same (rw h (refl, refl, refl))
Shows-view (ending o) known s same h (at_end _) = rw same (rw h (refl, refl, refl))
Shows-view (over o) known s same h (at_rest _) = rw same (rw h (refl, refl, refl))

-- In every state that the two threads reach, in whatever order their steps come, a frontend reads what
-- the phase says: the note and the flag of a sweep are those of its exception, and are seen from its
-- end on, not before.
pub Reached-Shows : (policy : VectorPolicy) (s : Session) → Reached policy s → Shows s (view s)
Reached-Shows policy s r =
    Shows-view s.worker s.decode_state s refl refl (Reached-IsCoherent policy s r)
