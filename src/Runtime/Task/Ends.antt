-- ===== src/Runtime/Task/Ends.antt =====
-- How many steps `runTask` takes, and the end of a request that is lost.
use crossa.Prelude.{
  ℕ, ◌≤◌, ◌-◌, Bool, true, false, List, [], ◌∷◌, if◌then◌else◌, ◌≡◌, refl, sym, ◌∙◌, ap, arith,
}
use crossa.Runtime.Handle.{
  is_cancellation, Lifecycle, CrossaState, cancelled, is_cancellation_requested, try_complete,
  complete_requested,
}
use crossa.Runtime.Task.{
  Outcome, value, threw, threw_standard, threw_unknown, Phase, checking, running, publishing,
  settling, settling_active, returned, World, world, Event, task_step, cancel_call, publish, caught,
  advance, step, execute, is_active, start, task_steps,
}
use crossa.Runtime.Task.Linear.{execute-linear}

module _ {A : Type 0} where
  is_lost : World A → Bool
  is_lost (world l phase lost) = lost

  -- How many steps the thread can still take.
  remaining : World A → ℕ
  remaining (world l checking lost) = 5
  remaining (world l running lost) = 4
  remaining (world l publishing lost) = 3
  remaining (world l settling lost) = 2
  remaining (world l settling_active lost) = 1
  remaining (world l (returned s) lost) = 0

  remaining-if :
      (b : Bool) (l : Lifecycle) (p q : Phase A) (lost : Bool) (n : ℕ)
      → remaining (world l p lost) ≤ n
      → remaining (world l q lost) ≤ n
      → remaining (world l (if b then p else q) lost) ≤ n
  remaining-if true l p q lost n hp hq = hp
  remaining-if false l p q lost n hp hq = hq

remaining-caught :
    {A : Type 0} (outcome : Outcome A) (l : Lifecycle) (lost : Bool)
    → remaining (world l (caught outcome) lost) ≤ 3
unfolding remaining caught
remaining-caught (value v) l lost = omega arith
remaining-caught (threw_standard what) l lost = omega arith
remaining-caught threw_unknown l lost = omega arith
remaining-caught (threw error) l lost =
    remaining-if (is_cancellation error) l settling publishing lost 3 (omega arith) (omega arith)

module _ {A : Type 0} (outcome : Outcome A) where
  remaining-cancel : (w : World A) → remaining (step outcome cancel_call w) ≡ remaining w
  unfolding remaining step
  remaining-cancel (world l checking lost) = refl
  remaining-cancel (world l running lost) = refl
  remaining-cancel (world l publishing lost) = refl
  remaining-cancel (world l settling lost) = refl
  remaining-cancel (world l settling_active lost) = refl
  remaining-cancel (world l (returned s) lost) = refl

  remaining-task : (w : World A) → remaining (step outcome task_step w) ≤ remaining w - 1
  unfolding remaining step advance
  remaining-task (world l checking lost) =
      remaining-if (is_cancellation_requested l) l settling running lost 4 (omega arith)
        (omega arith)
  remaining-task (world l running lost) = remaining-caught outcome l lost
  remaining-task (world l publishing lost) =
      remaining-if (try_complete l).0 (try_complete l).1 (returned (publish outcome)) settling lost
        2 (omega arith) (omega arith)
  remaining-task (world l settling lost) =
      remaining-if (complete_requested l).0 (complete_requested l).1 (returned cancelled)
        settling_active lost 1 (omega arith) (omega arith)
  remaining-task (world l settling_active lost) = omega arith
  remaining-task (world l (returned s) lost) = omega arith

  execute-remaining :
      (events : List Event) (w : World A)
      → remaining w ≤ task_steps events
      → remaining (execute outcome events w) ≡ 0
  unfolding execute task_steps
  execute-remaining [] w h = omega arith
  execute-remaining (task_step ∷ events) w h =
      execute-remaining events (step outcome task_step w) (omega (arith, remaining-task w))
  execute-remaining (cancel_call ∷ events) w h =
      execute-remaining events (step outcome cancel_call w) (omega (arith, remaining-cancel w))

  remaining-zero :
      (w : World A)
      → remaining w ≡ 0
      → (l' : Lifecycle) × (s : CrossaState A) × (lost : Bool) × (w ≡ world l' (returned s) lost)
  unfolding remaining
  remaining-zero (world l checking lost) h = absurd (omega arith)
  remaining-zero (world l running lost) h = absurd (omega arith)
  remaining-zero (world l publishing lost) h = absurd (omega arith)
  remaining-zero (world l settling lost) h = absurd (omega arith)
  remaining-zero (world l settling_active lost) h = absurd (omega arith)
  remaining-zero (world l (returned s) lost) h = (l, s, lost, refl)

  -- If the handle's thread takes five steps, with any calls of `cancel` between them, then
  -- `runTask` has returned a terminal state.
  execute-returns :
      (l : Lifecycle) (events : List Event)
      → 5 ≤ task_steps events
      → (l' : Lifecycle) × (s : CrossaState A) × (lost : Bool) × (execute outcome events (start l)
          ≡ world l' (returned s) lost)
  unfolding start remaining
  execute-returns l events h =
      remaining-zero (execute outcome events (start l)) (execute-remaining events (start l) h)

  -- A request that is lost stays lost.
  step-lost :
      (event : Event) (w : World A) → is_lost w ≡ true → is_lost (step outcome event w) ≡ true
  unfolding step is_lost
  step-lost task_step (world l phase lost) h = h
  step-lost cancel_call (world l phase lost) h = ground arith

  execute-lost :
      (events : List Event) (w : World A)
      → is_lost w ≡ true
      → is_lost (execute outcome events w) ≡ true
  unfolding execute
  execute-lost [] w h = h
  execute-lost (event ∷ events) w h =
      execute-lost events (step outcome event w) (step-lost event w h)

  start-lost : (l : Lifecycle) → is_active l ≡ false → is_lost (start {A = A} l) ≡ true
  unfolding start is_lost
  start-lost l h = rw h refl

  -- If the handle of a task is not active when `runTask` begins, and the thread takes five steps
  -- or more, then `runTask` has returned `cancelled`, whatever the task does and whatever calls
  -- of `cancel` come in between.
  pub execute-cancelled :
      (l : Lifecycle) (events : List Event)
      → is_active l ≡ false
      → 5 ≤ task_steps events
      → (l' : Lifecycle) × (execute outcome events (start l) ≡ world l' (returned cancelled) true)
  unfolding is_lost
  execute-cancelled l events h long =
      let (l', s, lost, e) = execute-returns l events long in
      let is_true : lost ≡ true =
        ap is_lost (sym e) ∙ execute-lost events (start l) (start-lost l h) in
      let state : s ≡ cancelled = simp is_true at (execute-linear outcome l events l' s lost e).1 in
      (
        l',
        e
            ∙ ap (λ r. world l' (returned r) lost) state
            ∙ ap (λ b. world l' (returned cancelled) b) is_true,
      )
