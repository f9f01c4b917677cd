-- ===== src/Runtime/Task/Linear.antt =====
-- The terminal state of `runTask` under every interleaving with calls of `cancel`.
use crossa.Prelude.{
  Bool, true, false, not, ◌||◌, List, [], ◌∷◌, if◌then◌else◌, ◌≡◌, refl, sym, ◌∙◌, arith,
  Bool-cases, inl, inr, subst,
}
use crossa.Runtime.Handle.{
  CrossaError, is_cancellation, Lifecycle, active, completed, cancellation_requested, CrossaState,
  cancelled, failed, cancel, is_cancellation_requested, try_complete, complete_requested,
  complete_active,
}
use crossa.Runtime.Task.{
  Outcome, value, threw, threw_standard, threw_unknown, Phase, checking, running, publishing,
  settling, settling_active, returned, World, world, Event, task_step, cancel_call, publish, caught,
  advance, step, execute, is_active, start,
}

module _ {A : Type 0} (outcome : Outcome A) where
  unfoldable verdict : Bool → CrossaState A
  verdict true = cancelled
  verdict false = publish outcome

  verdict-if : (lost : Bool) → verdict lost ≡ (if lost then cancelled else publish outcome)
  unfolding verdict
  verdict-if true = refl
  verdict-if false = refl

  -- A request is lost exactly if it is not active, until its task gives up or returns.
  Sound : World A → Type 0
  Sound (world l checking lost) = is_active l ≡ not lost
  Sound (world l running lost) = is_active l ≡ not lost
  Sound (world l publishing lost) = is_active l ≡ not lost
  Sound (world l settling lost) = (is_active l ≡ not lost) × (verdict lost ≡ cancelled)
  Sound (world l settling_active lost) = (is_active l ≡ not lost) × (verdict lost ≡ cancelled)
  Sound (world l (returned s) lost) = (is_active l ≡ false) × (s ≡ verdict lost)

  publish-caught :
      (error : CrossaError) → is_cancellation error ≡ true → failed {A = A} error ≡ cancelled
  unfolding failed
  publish-caught error e = rw (failed, e)

  cancel-open :
      (l : Lifecycle) (lost : Bool)
      → is_active l ≡ not lost
      → is_active (cancel l).1 ≡ not (lost || (cancel l).0)
  unfolding is_active cancel
  cancel-open l lost h = ground arith

  cancel-lost :
      (lost accepted : Bool) → verdict lost ≡ cancelled → verdict (lost || accepted) ≡ cancelled
  unfolding verdict
  cancel-lost lost accepted h = ground arith

  cancel-closed :
      (l : Lifecycle)
      → is_active l ≡ false
      → (is_active (cancel l).1 ≡ false) × ((cancel l).0 ≡ false)
  unfolding is_active cancel
  cancel-closed l h = ground arith

  verdict-kept :
      (l : Lifecycle) (lost : Bool)
      → is_active l ≡ false
      → verdict lost ≡ verdict (lost || (cancel l).0)
  unfolding verdict
  verdict-kept l true h = refl
  verdict-kept l false h = rw ((cancel-closed l h).1) refl

  verdict-lost : (lost : Bool) → false ≡ not lost → verdict lost ≡ cancelled
  unfolding verdict
  verdict-lost true h = refl
  verdict-lost false h = absurd (ground arith)

  cancel-Sound :
      (l : Lifecycle) (phase : Phase A) (lost : Bool)
      → Sound (world l phase lost)
      → Sound (step outcome cancel_call (world l phase lost))
  unfolding Sound step
  cancel-Sound l checking lost s = cancel-open l lost s
  cancel-Sound l running lost s = cancel-open l lost s
  cancel-Sound l publishing lost s = cancel-open l lost s
  cancel-Sound l settling lost s = (cancel-open l lost s.0, cancel-lost lost _ s.1)
  cancel-Sound l settling_active lost s = (cancel-open l lost s.0, cancel-lost lost _ s.1)
  cancel-Sound l (returned r) lost s = ((cancel-closed l s.0).0, s.1 ∙ verdict-kept l lost s.0)

  verdict-open : (lost : Bool) → true ≡ not lost → publish outcome ≡ verdict lost
  unfolding verdict
  verdict-open true h = absurd (ground arith)
  verdict-open false h = refl

  returned-Sound :
      (l : Lifecycle) (r : CrossaState A) (lost : Bool)
      → Sound (world l (returned r) lost)
      → Sound (step outcome task_step (world l (returned r) lost))
  unfolding Sound step advance
  returned-Sound l r lost s = s

  returned-verdict :
      (l : Lifecycle) (r : CrossaState A) (lost : Bool)
      → Sound (world l (returned r) lost)
      → (is_active l ≡ false) × (r ≡ (if lost then cancelled else publish outcome))
  unfolding Sound
  returned-verdict l r lost s = (s.0, s.1 ∙ verdict-if lost)

  checking-Sound :
      (l : Lifecycle) (lost : Bool)
      → Sound (world l checking lost)
      → Sound (step outcome task_step (world l checking lost))
  unfolding Sound step advance is_active is_cancellation_requested
  checking-Sound active lost s = s
  checking-Sound cancellation_requested lost s = (s, verdict-lost lost s)
  checking-Sound completed lost s = s

  publishing-Sound :
      (l : Lifecycle) (lost : Bool)
      → Sound (world l publishing lost)
      → Sound (step outcome task_step (world l publishing lost))
  unfolding Sound step advance is_active try_complete
  publishing-Sound active lost s = (refl, verdict-open lost s)
  publishing-Sound cancellation_requested lost s = (s, verdict-lost lost s)
  publishing-Sound completed lost s = (s, verdict-lost lost s)

  settling-Sound :
      (l : Lifecycle) (lost : Bool)
      → Sound (world l settling lost)
      → Sound (step outcome task_step (world l settling lost))
  unfolding Sound step advance is_active complete_requested
  settling-Sound active lost s = s
  settling-Sound cancellation_requested lost s = (refl, sym s.1)
  settling-Sound completed lost s = s

  settling_active-Sound :
      (l : Lifecycle) (lost : Bool)
      → Sound (world l settling_active lost)
      → Sound (step outcome task_step (world l settling_active lost))
  unfolding Sound step advance is_active complete_active
  settling_active-Sound active lost s = (refl, sym s.1)
  settling_active-Sound cancellation_requested lost s = (refl, sym s.1)
  settling_active-Sound completed lost s = (refl, sym s.1)

verdict-threw :
    {A : Type 0} (error : CrossaError) (lost : Bool)
    → is_cancellation error ≡ true
    → verdict {A = A} (threw error) lost ≡ cancelled
unfolding verdict publish
verdict-threw error true h = refl
verdict-threw error false h = publish-caught (threw error) error h

running-Sound :
    {A : Type 0} (outcome : Outcome A) (l : Lifecycle) (lost : Bool)
    → Sound outcome (world l running lost)
    → Sound outcome (step outcome task_step (world l running lost))
unfolding Sound step advance caught
running-Sound (value v) l lost s = s
running-Sound (threw_standard what) l lost s = s
running-Sound threw_unknown l lost s = s
running-Sound (threw error) l lost s = elim (Bool-cases (is_cancellation error)) [
  | inl is ↦ rw is (s, verdict-threw error lost is)
  | inr other ↦ rw other s
]

module _ {A : Type 0} (outcome : Outcome A) where
  step-Sound :
      (event : Event) (w : World A) → Sound outcome w → Sound outcome (step outcome event w)
  step-Sound cancel_call (world l phase lost) s = cancel-Sound outcome l phase lost s
  step-Sound task_step (world l checking lost) s = checking-Sound outcome l lost s
  step-Sound task_step (world l running lost) s = running-Sound outcome l lost s
  step-Sound task_step (world l publishing lost) s = publishing-Sound outcome l lost s
  step-Sound task_step (world l settling lost) s = settling-Sound outcome l lost s
  step-Sound task_step (world l settling_active lost) s = settling_active-Sound outcome l lost s
  step-Sound task_step (world l (returned r) lost) s = returned-Sound outcome l r lost s

  execute-Sound :
      (events : List Event) (w : World A)
      → Sound outcome w
      → Sound outcome (execute outcome events w)
  unfolding execute
  execute-Sound [] w s = s
  execute-Sound (event ∷ events) w s =
      execute-Sound events (step outcome event w) (step-Sound event w s)

  start-Sound : (l : Lifecycle) → Sound outcome (start l)
  unfolding Sound start is_active
  start-Sound active = refl
  start-Sound cancellation_requested = refl
  start-Sound completed = refl

  -- At any time after `runTask` has begun on a handle in any lifecycle, whatever calls of `cancel`
  -- have come in between: if it has returned a terminal state, then the handle is no longer
  -- active, so that later calls of `cancel` return false, and the state is `cancelled` if the
  -- handle was not active at the start or a call of `cancel` has returned true, and otherwise
  -- what the task's outcome says.
  pub execute-linear :
      (l : Lifecycle) (events : List Event) (l' : Lifecycle) (s : CrossaState A) (lost : Bool)
      → execute outcome events (start l) ≡ world l' (returned s) lost
      → (is_active l' ≡ false) × (s ≡ (if lost then cancelled else publish outcome))
  execute-linear l events l' s lost e =
      returned-verdict outcome l' s lost
        (subst (Sound outcome) e (execute-Sound events (start l) (start-Sound l)))
