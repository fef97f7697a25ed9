-- ===== src/Session/Joined.antt =====
-- The join of the worker thread in Session::runDecode, src/analysis_session.cpp: it comes to an end.
use voidwalk.Common.{
  ℕ, zero, suc, ◌-◌, ◌≤◌, arith, if◌then◌else◌, ◌≡◌, refl, Bool, true, false, Option, none, some,
  Error, length_error, runtime_error, file_changed, bad_alloc, out_of_fuel,
}
use voidwalk.Arch.{make_decoder}
use voidwalk.ChunkStore.{VectorPolicy}
use voidwalk.Format.Detect.{binary_arch, binary_sections}
use voidwalk.Sweep.{Run}
use voidwalk.Sweep.Ending.{IsEnded, IsThrowable, by_return, by_throw, decode-IsEnded}
use voidwalk.Session.{
  Session, Opened, Worker, no_worker, sweeping, caught, noted, ending, over, worker_step, advance,
  handle, end_sweep, sweep_of, after_sweep, has_ended, join, join_rounds,
}

none_left : {n : ℕ} → suc n ≤ 0 → ⊥
none_left h = omega arith

pub data AtRest : Worker → Type 0 where
  no_thread : AtRest no_worker
  finished : (o : Option Error) → AtRest (over o)

module _ (policy : VectorPolicy) where
  -- The stores of a worker that are left, at most
  abbrev steps_left : Worker → ℕ
  steps_left no_worker = 0
  steps_left sweeping = 4
  steps_left (caught e) = 3
  steps_left noted = 2
  steps_left (ending o) = 1
  steps_left (over o) = 0

  AtRest-steps_left : (w : Worker) → steps_left w ≤ 0 → AtRest w
  AtRest-steps_left no_worker h = no_thread
  AtRest-steps_left sweeping h = elim (none_left h) [ ]
  AtRest-steps_left (caught e) h = elim (none_left h) [ ]
  AtRest-steps_left noted h = elim (none_left h) [ ]
  AtRest-steps_left (ending o) h = elim (none_left h) [ ]
  AtRest-steps_left (over o) h = finished o

  -- A sweep that ends leaves three stores.
  steps_left-after_sweep : (r : Run) → IsEnded IsThrowable r → steps_left (after_sweep r) ≤ 3
  unfolding after_sweep
  steps_left-after_sweep r (by_return d) = omega arith
  steps_left-after_sweep r (by_throw d out_of_fuel h) = absurd (h refl)
  steps_left-after_sweep r (by_throw d (length_error text) h) = omega arith
  steps_left-after_sweep r (by_throw d (runtime_error text) h) = omega arith
  steps_left-after_sweep r (by_throw d file_changed h) = omega arith
  steps_left-after_sweep r (by_throw d bad_alloc h) = omega arith

  sweep_of-IsEnded : (stop : ℕ → Bool) (o : Opened) → IsEnded IsThrowable (sweep_of policy stop o)
  unfolding sweep_of
  sweep_of-IsEnded stop o =
      decode-IsEnded policy o.contents false stop (make_decoder (binary_arch o.binary))
        (binary_sections o.binary).text o.object

  steps_left-handle : (e : Error) (s : Session) → steps_left (handle policy e s).worker ≤ 2
  unfolding handle
  steps_left-handle file_changed s = omega arith
  steps_left-handle (length_error text) s = omega arith
  steps_left-handle (runtime_error text) s = omega arith
  steps_left-handle bad_alloc s = omega arith
  steps_left-handle out_of_fuel s = omega arith

  steps_left-end_sweep :
      (stop : ℕ → Bool) (o : Option Opened) (s : Session)
      → steps_left (end_sweep policy stop o s).worker ≤ 3
  unfolding end_sweep
  steps_left-end_sweep stop none s = omega arith
  steps_left-end_sweep stop (some o) s =
      steps_left-after_sweep (sweep_of policy stop o) (sweep_of-IsEnded stop o)

  steps_left-advance :
      (stop : ℕ → Bool) (w : Worker) (s : Session)
      → s.worker ≡ w
      → steps_left (advance policy stop w s).worker ≤ steps_left w - 1
  unfolding advance
  steps_left-advance stop no_worker s same = rw same (omega arith)
  steps_left-advance stop sweeping s same = steps_left-end_sweep stop s.disassembler s
  steps_left-advance stop (caught e) s same = steps_left-handle e s
  steps_left-advance stop noted s same = omega arith
  steps_left-advance stop (ending o) s same = omega arith
  steps_left-advance stop (over o) s same = rw same (omega arith)

  steps_left-worker_step :
      (stop : ℕ → Bool) (s : Session)
      → steps_left (worker_step policy stop s).worker ≤ steps_left s.worker - 1
  unfolding worker_step
  steps_left-worker_step stop s = steps_left-advance stop s.worker s refl

  steps_left-4 : (w : Worker) → steps_left w ≤ 4
  steps_left-4 no_worker = omega arith
  steps_left-4 sweeping = omega arith
  steps_left-4 (caught e) = omega arith
  steps_left-4 noted = omega arith
  steps_left-4 (ending o) = omega arith
  steps_left-4 (over o) = omega arith

  AtRest-join_step :
      (b : Bool) (s rest : Session)
      → (b ≡ true → AtRest s.worker)
      → AtRest rest.worker
      → AtRest (if b then s else rest).worker
  AtRest-join_step true s rest h k = h refl
  AtRest-join_step false s rest h k = k

  AtRest-has_ended : (w : Worker) → has_ended w ≡ true → AtRest w
  unfolding has_ended
  AtRest-has_ended no_worker h = no_thread
  AtRest-has_ended sweeping h = cc
  AtRest-has_ended (caught e) h = cc
  AtRest-has_ended noted h = cc
  AtRest-has_ended (ending o) h = cc
  AtRest-has_ended (over o) h = finished o

  AtRest-join_rounds :
      (stop : ℕ → Bool) (rounds : ℕ) (s : Session)
      → steps_left s.worker ≤ rounds
      → AtRest (join_rounds policy stop rounds s).worker
  unfolding join_rounds
  AtRest-join_rounds stop zero s enough = AtRest-steps_left s.worker enough
  AtRest-join_rounds stop (suc rounds) s enough =
      AtRest-join_step (has_ended s.worker) s _ (AtRest-has_ended s.worker) (
        AtRest-join_rounds stop rounds (worker_step policy stop s)
          (omega (arith, steps_left-worker_step stop s)))

  -- Joining ends every worker, wherever it stands, and whatever binary it is sweeping: it is over, or
  -- there was none. A worker whose sweep did not end would not be.
  pub AtRest-join : (stop : ℕ → Bool) (s : Session) → AtRest (join policy stop s).worker
  unfolding join
  AtRest-join stop s = AtRest-join_rounds stop 4 s (steps_left-4 s.worker)
