-- ===== src/Runtime/Scheduler.antt =====
-- src/runtime/scheduler/SchedulerOptions.cpp and the queue, the workers and the shutdown of
-- src/runtime/scheduler/TaskScheduler.cpp. Each operation is one critical section under `mutex_`;
-- `none` is a wait on a condition variable that does not return in this state.
pub mod Limits
pub mod Lost
pub mod Reachable
use crossa.Prelude.{
  ℕ, suc, ◌-◌, ◌+◌, Bool, true, false, not, ◌&&◌, ◌||◌, List, [], ◌∷◌, ◌++◌, Option, none, some,
  length, ◌==◌, ltb, if◌then◌else◌, Result, ok, err,
}
use crossa.Runtime.Handle.{Lifecycle, cancel}

pub data SchedulerError : Type 0 where
  invalid_worker_count invalid_queue_capacity shutting_down : SchedulerError

-- `SchedulerOptions`
pub record Options : Type 0 where
  pub worker_count : ℕ
  pub maximum_queued_tasks : ℕ

-- The constructor of `SchedulerOptions`.
unfoldable pub options : ℕ → ℕ → Result SchedulerError Options
options workers capacity =
    if workers == 0 || ltb 64 workers
    then err invalid_worker_count
    else if capacity == 0 || ltb 65536 capacity
    then err invalid_queue_capacity
    else ok record { worker_count = workers; maximum_queued_tasks = capacity }

-- `SchedulerOptions::createDefault`, of what `thread::hardware_concurrency` detects.
unfoldable pub create_default : ℕ → Result SchedulerError Options
unfolding options
create_default detected =
    let available = if detected == 0 then 2 else detected in
    options (if ltb available 2 then 2 else if ltb 4 available then 4 else available) 256

-- A handle is the number of its shared state, a worker that of its thread.
abbrev pub Handle : Type 0
Handle = ℕ

abbrev pub Worker : Type 0
Worker = ℕ

-- The shared states of all handles.
abbrev pub Handles : Type 0
Handles = Handle → Lifecycle

-- `ScheduledWork`: the number of its task, and its handle.
pub record ScheduledWork : Type 0 where
  pub task : ℕ
  pub request_handle : Handle

-- The members of `TaskScheduler` that `mutex_` guards, and the handles.
pub record TaskScheduler : Type 0 where
  pub maximum_queued_tasks : ℕ
  pub tasks : List ScheduledWork
  pub worker_ids : List Worker
  pub active_handles : List (Worker × Handle)
  pub active_tasks : ℕ
  pub stopping : Bool
  pub handles : Handles

unfoldable pub start : Options → Handles → TaskScheduler
start options handles = record {
  maximum_queued_tasks = options.maximum_queued_tasks;
  tasks = [];
  worker_ids = [];
  active_handles = [];
  active_tasks = 0;
  stopping = false;
  handles = handles;
}

-- One handle's `cancel`.
unfoldable pub cancel_handle : Handle → Handles → Handles
unfolding cancel
cancel_handle h handles k = if h == k then (cancel (handles k)).1 else handles k

-- `enqueue`
unfoldable pub enqueue :
    ScheduledWork → TaskScheduler → Option (Result SchedulerError TaskScheduler)
enqueue work s =
    if s.stopping || ltb (length s.tasks) s.maximum_queued_tasks
    then some
        (if s.stopping then err shutting_down else ok (record s { tasks = s.tasks ++ (work ∷ []) }))
    else none

-- The start of `workerLoop`.
unfoldable pub register : Worker → TaskScheduler → TaskScheduler
register w s = record s { worker_ids = w ∷ s.worker_ids }

abbrev pub without {ℓ} : {A : Type ℓ} → Worker → List (Worker × A) → List (Worker × A)
without w [] = []
without w ((v, a) ∷ rest) = let kept = without w rest in if v == w then kept else (v, a) ∷ kept

abbrev pub without_id : Worker → List Worker → List Worker
without_id w [] = []
without_id w (v ∷ rest) = let kept = without_id w rest in if v == w then kept else v ∷ kept

-- What the first critical section of a round of `workerLoop` does: the thread ends, or has work.
pub data Taken : Type 0 where
  ended : TaskScheduler → Taken
  taken : ScheduledWork → TaskScheduler → Taken

-- The first critical section of a round of `workerLoop`, by the queue that it finds.
unfoldable pub take_from : List ScheduledWork → Worker → TaskScheduler → Option Taken
take_from [] w s =
    if s.stopping then some (ended (record s { worker_ids = without_id w s.worker_ids })) else none
take_from (work ∷ rest) w s = some (
    taken work (record s {
      tasks = rest;
      active_handles = (w, work.request_handle) ∷ without w s.active_handles;
      active_tasks = suc s.active_tasks;
    }))

unfoldable pub take_work : Worker → TaskScheduler → Option Taken
unfolding take_from
take_work w s = take_from s.tasks w s

-- The last critical section of a round of `workerLoop`.
unfoldable pub finish_work : Worker → TaskScheduler → TaskScheduler
finish_work w s = record s {
  active_handles = without w s.active_handles;
  active_tasks = s.active_tasks - 1;
}

-- The loops of `requestShutdown`.
unfoldable pub cancel_queued : List ScheduledWork → Handles → Handles
unfolding cancel_handle
cancel_queued [] handles = handles
cancel_queued (work ∷ rest) handles = cancel_queued rest (cancel_handle work.request_handle handles)

unfoldable pub cancel_active : List (Worker × Handle) → Handles → Handles
unfolding cancel_handle
cancel_active [] handles = handles
cancel_active ((w, h) ∷ rest) handles = cancel_active rest (cancel_handle h handles)

-- `requestShutdown`
unfoldable pub request_shutdown : TaskScheduler → TaskScheduler
unfolding cancel_queued cancel_active
request_shutdown s = if s.stopping then s else record s {
  stopping = true;
  handles = cancel_active s.active_handles (cancel_queued s.tasks s.handles);
}

-- The predicate of `waitUntilIdle`, by the queue and `activeTasks_`.
unfoldable pub idle_with : List ScheduledWork → ℕ → Bool
idle_with [] active_tasks = active_tasks == 0
idle_with (work ∷ rest) active_tasks = false

unfoldable pub is_idle : TaskScheduler → Bool
unfolding idle_with
is_idle s = idle_with s.tasks s.active_tasks

-- activeHandles_.contains(w)
unfoldable pub is_busy {ℓ} : {A : Type ℓ} → Worker → List (Worker × A) → Bool
is_busy w [] = false
is_busy w ((v, a) ∷ rest) = v == w || is_busy w rest
