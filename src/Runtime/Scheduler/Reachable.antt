-- ===== src/Runtime/Scheduler/Reachable.antt =====
-- What holds of the scheduler in every state that its threads can bring it to.
use crossa.Prelude.{
  ℕ, suc, ◌≢◌, ◌≤◌, ◌<◌, true, false, List, [], ◌∷◌, ◌++◌, length, length-append, ◌≡◌, refl, ap,
  subst, some, none, ok, err, arith, Bool-cases, inl, inr, ◌↔◌,
}
use crossa.Runtime.Task.{Outcome, Phase}
use crossa.Runtime.Scheduler.{
  shutting_down, Options, Handle, Worker, Handles, ScheduledWork, TaskScheduler, start,
  cancel_handle, enqueue, register, without, ended, taken, take_from, take_work, finish_work,
  cancel_queued, cancel_active, request_shutdown, idle_with, is_idle, is_busy, without_id,
}
use crossa.Runtime.Scheduler.Lost.{
  move, Distinct, Lost, AllLost, Keeps, cancel_handle-Keeps, move-Keeps, Lost-Keeps,
  cancel_active-Keeps, cancel_queued-Lost, cancel_active-Lost, busy-without, without-idle,
  without-busy, without-Distinct, without-Lost,
}

-- One step of one thread: a client's, a worker's, or a caller of `cancel` on some handle.
pub data Step : TaskScheduler → TaskScheduler → Type 1 where
  submits :
      (work : ScheduledWork) (s s' : TaskScheduler) → enqueue work s ≡ some (ok s') → Step s s'
  registers : (w : Worker) (s : TaskScheduler) → Step s (register w s)
  takes :
      (w : Worker) (work : ScheduledWork) (s s' : TaskScheduler)
      → is_busy w s.active_handles ≡ false
      → take_work w s ≡ some (taken work s')
      → Step s s'
  ends : (w : Worker) (s s' : TaskScheduler) → take_work w s ≡ some (ended s') → Step s s'
  finishes :
      (w : Worker) (s : TaskScheduler)
      → is_busy w s.active_handles ≡ true
      → Step s (finish_work w s)
  shuts_down : (s : TaskScheduler) → Step s (request_shutdown s)
  cancels :
      (h : Handle) (s : TaskScheduler) → Step s (record s { handles = cancel_handle h s.handles })
  moves :
      (A : Type 0) (outcome : Outcome A) (phase : Phase A) (h : Handle) (s : TaskScheduler)
      → Step s (record s { handles = move outcome phase h s.handles })

pub data Reachable (options : Options) : TaskScheduler → Type 1 where
  starts : (handles : Handles) → Reachable options (start options handles)
  steps : (s s' : TaskScheduler) → Reachable options s → Step s s' → Reachable options s'

record WellFormed (options : Options) (s : TaskScheduler) : Type 0 where
  capacity : s.maximum_queued_tasks ≡ options.maximum_queued_tasks
  bounded : length s.tasks ≤ s.maximum_queued_tasks
  counted : s.active_tasks ≡ length s.active_handles
  distinct : Distinct s.active_handles
  lost : s.stopping ≡ true → AllLost s

abbrev queued : ScheduledWork → TaskScheduler → TaskScheduler
queued work s = record s { tasks = s.tasks ++ (work ∷ []) }

enqueue-ok :
    (work : ScheduledWork) (s s' : TaskScheduler)
    → enqueue work s ≡ some (ok s')
    → (s.stopping ≡ false) × (length s.tasks < s.maximum_queued_tasks) × (queued work s ≡ s')
unfolding enqueue
enqueue-ok work s s' e = ground arith

abbrev busy_with : Worker → ScheduledWork → List ScheduledWork → TaskScheduler → TaskScheduler
busy_with w work rest s = record s {
  tasks = rest;
  active_handles = (w, work.request_handle) ∷ without w s.active_handles;
  active_tasks = suc s.active_tasks;
}

take_from-taken :
    (queue : List ScheduledWork) (w : Worker) (work : ScheduledWork) (s s' : TaskScheduler)
    → take_from queue w s ≡ some (taken work s')
    → (rest : List ScheduledWork) × (queue ≡ work ∷ rest) × (busy_with w work rest s ≡ s')
unfolding take_from
take_from-taken [] w work s s' e = ground arith
take_from-taken (first ∷ rest) w work s s' e =
    let same : first ≡ work = cc in (rest, ap (λ x. x ∷ rest) same, cc)

take_from-ended :
    (queue : List ScheduledWork) (w : Worker) (s s' : TaskScheduler)
    → take_from queue w s ≡ some (ended s')
    → record s { worker_ids = without_id w s.worker_ids } ≡ s'
unfolding take_from
take_from-ended [] w s s' e = ground arith
take_from-ended (first ∷ rest) w s s' e = cc

idle_with_iff :
    (queue : List ScheduledWork) (count : ℕ) (pairs : List (Worker × Handle))
    → count ≡ length pairs
    → (idle_with queue count ≡ true) ↔ ((queue ≡ []) × (pairs ≡ []))
unfolding idle_with
idle_with_iff [] count [] counted = ground arith
idle_with_iff [] count (p ∷ ps) counted = ground (arith, counted)
idle_with_iff (work ∷ rest) count pairs counted = ground arith

enqueue-stopped :
    (s : TaskScheduler)
    → s.stopping ≡ true
    → (work : ScheduledWork) → enqueue work s ≡ some (err shutting_down)
unfolding enqueue
enqueue-stopped s stopped work = ground arith

take_from-stopped :
    (queue : List ScheduledWork) (w : Worker) (s : TaskScheduler)
    → s.stopping ≡ true
    → take_from queue w s ≢ none
unfolding take_from
take_from-stopped [] w s stopped e = ground arith
take_from-stopped (first ∷ rest) w s stopped e = ground arith

module _ (options : Options) where
  enqueue-WellFormed :
      (work : ScheduledWork) (s : TaskScheduler)
      → s.stopping ≡ false
      → length s.tasks < s.maximum_queued_tasks
      → WellFormed options s
      → WellFormed options (queued work s)
  enqueue-WellFormed work s going room wf = record {
    capacity = wf.capacity;
    bounded = omega (arith, length-append s.tasks (work ∷ []));
    counted = wf.counted;
    distinct = wf.distinct;
    lost = λ stopped. absurd (ground arith);
  }

  take_work-WellFormed :
      (w : Worker) (work : ScheduledWork) (rest : List ScheduledWork) (s : TaskScheduler)
      → is_busy w s.active_handles ≡ false
      → s.tasks ≡ work ∷ rest
      → WellFormed options s
      → WellFormed options (busy_with w work rest s)
  unfolding Distinct
  take_work-WellFormed w work rest s idle e wf =
      let same = without-idle w s.active_handles idle in
      record {
        capacity = wf.capacity;
        bounded = omega (arith, ap length e);
        counted = omega (arith, ap length same);
        distinct = (
          busy-without w w s.active_handles idle,
          without-Distinct w s.active_handles wf.distinct,
        );
        lost = λ stopped.
            let before = wf.lost stopped in
            let queue = subst (Lost (λ work. work.request_handle) s.handles) e before.0 in
            (queue.1, (queue.0, without-Lost w s.handles s.active_handles before.1));
      }

  finish_work-WellFormed :
      (w : Worker) (s : TaskScheduler)
      → is_busy w s.active_handles ≡ true
      → WellFormed options s
      → WellFormed options (finish_work w s)
  unfolding finish_work
  finish_work-WellFormed w s busy wf = record {
    capacity = wf.capacity;
    bounded = wf.bounded;
    counted = omega (arith, wf.counted, without-busy w s.active_handles wf.distinct busy);
    distinct = without-Distinct w s.active_handles wf.distinct;
    lost = λ stopped.
        ((wf.lost stopped).0, without-Lost w s.handles s.active_handles (wf.lost stopped).1);
  }

  handles-WellFormed :
      (s : TaskScheduler) (handles : Handles)
      → Keeps s.handles handles
      → WellFormed options s
      → WellFormed options (record s { handles = handles })
  handles-WellFormed s handles keeps wf = record {
    capacity = wf.capacity;
    bounded = wf.bounded;
    counted = wf.counted;
    distinct = wf.distinct;
    lost = λ stopped. (
      Lost-Keeps (λ work. work.request_handle) s.handles handles s.tasks keeps (wf.lost stopped).0,
      Lost-Keeps (λ pair. pair.1) s.handles handles s.active_handles keeps (wf.lost stopped).1,
    );
  }

  ids-WellFormed :
      (s : TaskScheduler) (ids : List Worker)
      → WellFormed options s
      → WellFormed options (record s { worker_ids = ids })
  ids-WellFormed s ids wf = record {
    capacity = wf.capacity;
    bounded = wf.bounded;
    counted = wf.counted;
    distinct = wf.distinct;
    lost = wf.lost;
  }

  register-WellFormed :
      (w : Worker) (s : TaskScheduler) → WellFormed options s → WellFormed options (register w s)
  unfolding register
  register-WellFormed w s wf = ids-WellFormed s (w ∷ s.worker_ids) wf

  request_shutdown-WellFormed :
      (s : TaskScheduler) → WellFormed options s → WellFormed options (request_shutdown s)
  unfolding request_shutdown
  request_shutdown-WellFormed s wf = elim (Bool-cases s.stopping) [
    | inl stopped ↦ simp stopped wf
    | inr going ↦
        let handles = cancel_queued s.tasks s.handles in
        simp going (record {
          capacity = wf.capacity;
          bounded = wf.bounded;
          counted = wf.counted;
          distinct = wf.distinct;
          lost = λ stopped. (
            Lost-Keeps (λ work. work.request_handle) handles
                (cancel_active s.active_handles handles) s.tasks
                (cancel_active-Keeps s.active_handles handles)
                (cancel_queued-Lost s.tasks s.handles),
            cancel_active-Lost s.active_handles handles,
          );
        })
  ]

  Step-WellFormed :
      (s s' : TaskScheduler) → Step s s' → WellFormed options s → WellFormed options s'
  unfolding take_work
  Step-WellFormed _ _ (submits work s s' e) wf =
      let ok' = enqueue-ok work s s' e in
      subst (WellFormed options) ok'.2 (enqueue-WellFormed work s ok'.0 ok'.1 wf)
  Step-WellFormed _ _ (registers w s) wf = register-WellFormed w s wf
  Step-WellFormed _ _ (takes w work s s' idle e) wf =
      let (rest, tasks, after) = take_from-taken s.tasks w work s s' e in
      subst (WellFormed options) after (take_work-WellFormed w work rest s idle tasks wf)
  Step-WellFormed _ _ (ends w s s' e) wf =
      subst (WellFormed options) (take_from-ended s.tasks w s s' e) (ids-WellFormed s _ wf)
  Step-WellFormed _ _ (finishes w s busy) wf = finish_work-WellFormed w s busy wf
  Step-WellFormed _ _ (shuts_down s) wf = request_shutdown-WellFormed s wf
  Step-WellFormed _ _ (cancels h s) wf = handles-WellFormed s _ (cancel_handle-Keeps h s.handles) wf
  Step-WellFormed _ _ (moves A outcome phase h s) wf =
      handles-WellFormed s _ (move-Keeps outcome phase h s.handles) wf

  Reachable-WellFormed : (s : TaskScheduler) → Reachable options s → WellFormed options s
  unfolding start Distinct
  Reachable-WellFormed _ (starts handles) = record {
    capacity = refl;
    bounded = omega arith;
    counted = refl;
    distinct = tt;
    lost = λ stopped. absurd (ground arith);
  }
  Reachable-WellFormed _ (steps s s' before step) =
      Step-WellFormed s s' step (Reachable-WellFormed s before)

  -- In every reachable state, the queue holds at most `maximum_queued_tasks` tasks, `active_tasks`
  -- is the number of the busy workers, no worker is busy twice, and the predicate of
  -- `waitUntilIdle` holds exactly if no task is queued and no worker is busy.
  pub Reachable-Bounded :
      (s : TaskScheduler)
      → Reachable options s
      → (length s.tasks ≤ options.maximum_queued_tasks)
        × (s.active_tasks ≡ length s.active_handles)
        × Distinct s.active_handles
        × ((is_idle s ≡ true) ↔ ((s.tasks ≡ []) × (s.active_handles ≡ [])))
  unfolding is_idle
  Reachable-Bounded s reachable =
      let wf = Reachable-WellFormed s reachable in
      (
        omega (arith, wf.capacity, wf.bounded),
        wf.counted,
        wf.distinct,
        idle_with_iff s.tasks s.active_tasks s.active_handles wf.counted,
      )

  -- In every reachable state in which shutdown was requested, no handle of a queued or a running
  -- task is active, `enqueue` throws, and no worker waits for work.
  pub Reachable-Stopped :
      (s : TaskScheduler)
      → Reachable options s
      → s.stopping ≡ true
      → AllLost s
        × ((work : ScheduledWork) → enqueue work s ≡ some (err shutting_down))
        × ((w : Worker) → take_work w s ≢ none)
  unfolding take_work
  Reachable-Stopped s reachable stopped = (
    (Reachable-WellFormed s reachable).lost stopped,
    enqueue-stopped s stopped,
    λ w. take_from-stopped s.tasks w s stopped,
  )
