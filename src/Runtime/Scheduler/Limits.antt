-- ===== src/Runtime/Scheduler/Limits.antt =====
-- The limits of `SchedulerOptions`.
use crossa.Prelude.{ℕ, ◌≤◌, ◌≡◌, refl, ok, arith, if◌then◌else◌, ltb, ◌==◌}
use crossa.Runtime.Scheduler.{Options, options, create_default}

-- `createDefault` does not throw, whatever the number of hardware threads that was detected: it
-- takes two to four workers and a queue of 256.
pub create_default-ok :
    (detected : ℕ)
    → (o : Options) × (create_default detected ≡ ok o)
      × (2 ≤ o.worker_count)
      × (o.worker_count ≤ 4)
      × (o.maximum_queued_tasks ≡ 256)
unfolding create_default options
create_default-ok detected =
    let available = if detected == 0 then 2 else detected in
    let workers = if ltb available 2 then 2 else if ltb 4 available then 4 else available in
    (
      record { worker_count = workers; maximum_queued_tasks = 256 },
      ground arith,
      ground arith,
      ground arith,
      refl,
    )
