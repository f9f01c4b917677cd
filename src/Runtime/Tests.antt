-- ===== src/Runtime/Tests.antt =====
-- Tasks and the scheduler in concrete runs.
use crossa.Prelude.{
  ℕ, ◌≤◌, ◌≢◌, true, false, List, [], ◌∷◌, none, some, length, if◌then◌else◌, ok, err, ◌≡◌, ◌↔◌,
  refl, arith,
}
use crossa.Runtime.Handle.{
  Lifecycle, active, cancellation_requested, completed, success, cancelled, cancel, try_complete,
  complete_requested, is_cancellation_requested,
}
use crossa.Runtime.Task.{
  Outcome, value, returned, world, Event, task_step, cancel_call, publish, caught, advance, step,
  execute, is_active, start, task_steps,
}
use crossa.Runtime.Task.Linear.{execute-linear}
use crossa.Runtime.Task.Ends.{execute-cancelled}
use crossa.Runtime.Scheduler.{
  Options, options, create_default, ScheduledWork, TaskScheduler, SchedulerError, shutting_down,
  invalid_worker_count, Handles, enqueue, register, take_work, take_from, finish_work,
  request_shutdown, is_idle, cancel_handle, cancel_queued, cancel_active, is_busy,
}
use crossa.Runtime.Scheduler
use crossa.Runtime.Scheduler.Limits.{create_default-ok}
use crossa.Runtime.Scheduler.Lost.{AllLost, Distinct}
use crossa.Runtime.Scheduler.Reachable.{
  Reachable, starts, steps, submits, shuts_down, Reachable-Bounded, Reachable-Stopped,
}

abbrev seven : Outcome ℕ
seven = value 7

abbrev five_steps : List Event
five_steps = task_step ∷ task_step ∷ cancel_call ∷ task_step ∷ task_step ∷ task_step ∷ []

execute-linear_example :
    (is_active completed ≡ false) × (cancelled ≡ (if true then cancelled else publish seven))
unfolding execute step advance start is_active is_cancellation_requested caught try_complete
    complete_requested cancel
execute-linear_example = execute-linear seven active five_steps completed cancelled true refl

execute-cancelled_example :
    (l : Lifecycle) × (execute seven five_steps (start cancellation_requested)
      ≡ world l (returned cancelled) true)
unfolding task_steps is_active
execute-cancelled_example =
    execute-cancelled seven cancellation_requested five_steps refl (omega arith)

success_test :
    execute seven (task_step ∷ task_step ∷ task_step ∷ cancel_call ∷ []) (start active)
    ≡ world completed (returned (success 7)) false
unfolding execute step advance start is_active is_cancellation_requested caught try_complete
    complete_requested cancel publish
success_test = refl

abbrev small : Options
small = record { worker_count = 1; maximum_queued_tasks = 2 }

abbrev work : ScheduledWork
work = record { task = 1; request_handle = 5 }

abbrev all_active : Handles
all_active k = active

abbrev begun : TaskScheduler
begun = record {
  maximum_queued_tasks = 2;
  tasks = [];
  worker_ids = [];
  active_handles = [];
  active_tasks = 0;
  stopping = false;
  handles = all_active;
}

abbrev with_work : TaskScheduler
with_work = record begun { tasks = work ∷ [] }

with_work-Reachable : Reachable small with_work
unfolding Scheduler.start enqueue
with_work-Reachable = steps begun with_work (starts all_active) (submits work begun with_work refl)

Reachable-Bounded_example :
    (1 ≤ 2)
    × (begun.active_tasks ≡ length begun.active_handles)
    × Distinct []
    × ((is_idle with_work ≡ true) ↔ ((work ∷ [] ≡ []) × (with_work.active_handles ≡ [])))
Reachable-Bounded_example = Reachable-Bounded small with_work with_work-Reachable

abbrev stopped : TaskScheduler
stopped = request_shutdown with_work

Reachable-Stopped_example :
    AllLost stopped
    × ((other : ScheduledWork) → enqueue other stopped ≡ some (err shutting_down))
    × ((w : ℕ) → take_work w stopped ≢ none)
unfolding request_shutdown
Reachable-Stopped_example =
    Reachable-Stopped small stopped
      (steps with_work stopped with_work-Reachable (shuts_down with_work)) refl

create_default-ok_example :
    (o : Options) × (create_default 16 ≡ ok o)
    × (2 ≤ o.worker_count)
    × (o.worker_count ≤ 4)
    × (o.maximum_queued_tasks ≡ 256)
create_default-ok_example = create_default-ok 16

options_test : options 65 10 ≡ err invalid_worker_count
unfolding options
options_test = refl
