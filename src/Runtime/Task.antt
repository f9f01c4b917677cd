-- ===== src/Runtime/Task.antt =====
-- `runTask` of src/runtime/scheduler/TaskScheduler.cpp, one atomic operation at a time, while
-- other threads may cancel the same handle between any two of them.
pub mod Linear
pub mod Ends
use crossa.Prelude.{ℕ, suc, Bool, true, false, ◌||◌, List, [], ◌∷◌, Bytes, codes, if◌then◌else◌}
use crossa.Runtime.Handle.{
  ErrorCode, CrossaError, is_cancellation, Lifecycle, active, completed, cancellation_requested,
  cancel, is_cancellation_requested, try_complete, complete_requested, complete_active, CrossaState,
  success, cancelled, failed,
}

-- How the task that `runTask` calls ends: with a value, or by one of the exceptions that it catches.
pub data Outcome {ℓ} (A : Type ℓ) : Type ℓ where
  value : A → Outcome A
  threw : CrossaError → Outcome A
  threw_standard : Bytes → Outcome A
  threw_unknown : Outcome A

-- Where the thread that runs `runTask` stands.
pub data Phase {ℓ} (A : Type ℓ) : Type ℓ where
  checking running publishing settling settling_active : Phase A
  returned : CrossaState A → Phase A

-- The lifecycle, the phase, and whether the request is lost to a cancellation: it was not active
-- at the start, or a call of `cancel` has returned true.
pub data World {ℓ} (A : Type ℓ) : Type ℓ where
  world : Lifecycle → Phase A → Bool → World A

pub data Event : Type 0 where
  task_step cancel_call : Event

-- `CrossaError::runtime`
abbrev pub runtime_error : Bytes → CrossaError
runtime_error text = record { code = ErrorCode.runtime; message = text }

module _ {ℓ} {A : Type ℓ} where
  -- The state that each part of `runTask` returns after `tryComplete` has succeeded.
  unfoldable pub publish : Outcome A → CrossaState A
  publish (value v) = success v
  publish (threw error) = failed error
  publish (threw_standard what) = failed (runtime_error what)
  publish threw_unknown = failed (runtime_error (codes "Unknown native scheduler failure."))

  -- The handler that catches what the task threw, or the end of the `try`.
  unfoldable pub caught : Outcome A → Phase A
  caught (value v) = publishing
  caught (threw error) = if is_cancellation error then settling else publishing
  caught (threw_standard what) = publishing
  caught threw_unknown = publishing

  -- One atomic operation of `runTask`.
  unfoldable pub advance : Outcome A → Lifecycle → Phase A → Phase A × Lifecycle
  unfolding is_cancellation_requested publish caught try_complete complete_requested complete_active
  advance outcome l checking = (if is_cancellation_requested l then settling else running, l)
  advance outcome l running = (caught outcome, l)
  advance outcome l publishing =
      let exchange = try_complete l in
      (if exchange.0 then returned (publish outcome) else settling, exchange.1)
  advance outcome l settling =
      let exchange = complete_requested l in
      (if exchange.0 then returned cancelled else settling_active, exchange.1)
  advance outcome l settling_active = (returned cancelled, (complete_active l).1)
  advance outcome l (returned s) = (returned s, l)

  unfoldable pub step : Outcome A → Event → World A → World A
  unfolding advance cancel
  step outcome task_step (world l phase lost) =
      let next = advance outcome l phase in world next.1 next.0 lost
  step outcome cancel_call (world l phase lost) =
      let exchange = cancel l in world exchange.1 phase (lost || exchange.0)

  unfoldable pub execute : Outcome A → List Event → World A → World A
  unfolding step
  execute outcome [] w = w
  execute outcome (event ∷ events) w = execute outcome events (step outcome event w)

unfoldable pub is_active : Lifecycle → Bool
is_active active = true
is_active cancellation_requested = false
is_active completed = false

-- `runTask` is called on a handle in any lifecycle.
unfoldable pub start {ℓ} : {A : Type ℓ} → Lifecycle → World A
unfolding is_active
start l = world l checking (if is_active l then false else true)

-- How often a thread has run in a sequence of events.
unfoldable pub task_steps : List Event → ℕ
task_steps [] = 0
task_steps (task_step ∷ events) = suc (task_steps events)
task_steps (cancel_call ∷ events) = task_steps events
