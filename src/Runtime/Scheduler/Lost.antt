-- ===== src/Runtime/Scheduler/Lost.antt =====
-- Which operations lose handles, and what the bookkeeping of busy workers keeps.
use crossa.Prelude.{
  ◌-◌, ◌≤◌, true, false, List, [], ◌∷◌, ◌++◌, All, length, ◌≡◌, refl, ap, subst, arith,
  if◌then◌else◌, ◌==◌, ==_iff, Bool-cases, inl, inr,
}
use crossa.Runtime.Handle.{Lifecycle, cancel, try_complete, complete_requested, complete_active}
use crossa.Runtime.Task.{
  Outcome, Phase, checking, running, publishing, settling, settling_active, returned, advance,
  is_active,
}
use crossa.Runtime.Scheduler.{
  Handle, Worker, Handles, ScheduledWork, TaskScheduler, cancel_handle, without, cancel_queued,
  cancel_active, is_busy,
}

-- The handles after one exchange of `runTask` on a handle.
abbrev pub move : {A : Type 0} → Outcome A → Phase A → Handle → Handles → Handles
move outcome phase h handles k = if h == k then (advance outcome (handles k) phase).1 else handles k

unfoldable pub Distinct : List (Worker × Handle) → Type 0
Distinct [] = Unit
Distinct ((w, h) ∷ rest) = (is_busy w rest ≡ false) × Distinct rest

-- No handle of the list is active.
abbrev pub Lost : {A : Type 0} → (A → Handle) → Handles → List A → Type 0
Lost handle handles = All (λ a. is_active (handles (handle a)) ≡ false)

abbrev pub AllLost : TaskScheduler → Type 0
AllLost s =
    Lost (λ work. work.request_handle) s.handles s.tasks
    × Lost (λ pair. pair.1) s.handles s.active_handles

-- No operation makes a handle active again.
pub cancel-lost : (l : Lifecycle) → is_active l ≡ false → is_active (cancel l).1 ≡ false
unfolding is_active cancel
cancel-lost l h = ground arith

pub cancel-loses : (l : Lifecycle) → is_active (cancel l).1 ≡ false
unfolding is_active cancel
cancel-loses l = ground arith

pub advance-lost :
    {A : Type 0} (outcome : Outcome A) (phase : Phase A) (l : Lifecycle)
    → is_active l ≡ false
    → is_active (advance outcome l phase).1 ≡ false
unfolding is_active advance try_complete complete_requested complete_active
advance-lost outcome checking l h = h
advance-lost outcome running l h = h
advance-lost outcome publishing l h = ground arith
advance-lost outcome settling l h = ground arith
advance-lost outcome settling_active l h = ground arith
advance-lost outcome (returned s) l h = h

-- Every handle that is lost stays lost.
abbrev pub Keeps : Handles → Handles → Type 0
Keeps before after = (k : Handle) → is_active (before k) ≡ false → is_active (after k) ≡ false

pub cancel_handle-Keeps : (h : Handle) (handles : Handles) → Keeps handles (cancel_handle h handles)
unfolding cancel_handle
cancel_handle-Keeps h handles k lost = elim (Bool-cases (h == k)) [
  | inl same ↦ rw same (cancel-lost (handles k) lost)
  | inr other ↦ rw other lost
]

pub move-Keeps :
    {A : Type 0} (outcome : Outcome A) (phase : Phase A) (h : Handle) (handles : Handles)
    → Keeps handles (move outcome phase h handles)
move-Keeps outcome phase h handles k lost = elim (Bool-cases (h == k)) [
  | inl same ↦ rw same (advance-lost outcome phase (handles k) lost)
  | inr other ↦ rw other lost
]

module _ {A : Type 0} (handle : A → Handle) where
  pub Lost-Keeps :
      (before after : Handles) (xs : List A)
      → Keeps before after
      → Lost handle before xs
      → Lost handle after xs
  Lost-Keeps before after [] keeps lost = lost
  Lost-Keeps before after (a ∷ xs) keeps lost =
      (keeps (handle a) lost.0, Lost-Keeps before after xs keeps lost.1)

  pub Lost-append :
      (handles : Handles) (xs ys : List A)
      → Lost handle handles xs
      → Lost handle handles ys
      → Lost handle handles (xs ++ ys)
  Lost-append handles [] ys la lb = lb
  Lost-append handles (a ∷ xs) ys la lb = (la.0, Lost-append handles xs ys la.1 lb)

pub same-Keeps : (handles : Handles) → Keeps handles handles
same-Keeps handles k lost = lost

pub both-Keeps : (a b c : Handles) → Keeps a b → Keeps b c → Keeps a c
both-Keeps a b c first second k lost = second k (first k lost)

-- After a loop of `requestShutdown`, the handles of its list are lost, and no other is active anew.
pub cancel_queued-Keeps :
    (works : List ScheduledWork) (handles : Handles) → Keeps handles (cancel_queued works handles)
unfolding cancel_queued
cancel_queued-Keeps [] handles k lost = lost
cancel_queued-Keeps (work ∷ rest) handles k lost =
    cancel_queued-Keeps rest _ k (cancel_handle-Keeps work.request_handle handles k lost)

pub cancel_active-Keeps :
    (pairs : List (Worker × Handle)) (handles : Handles)
    → Keeps handles (cancel_active pairs handles)
unfolding cancel_active
cancel_active-Keeps [] handles k lost = lost
cancel_active-Keeps ((w, h) ∷ rest) handles k lost =
    cancel_active-Keeps rest _ k (cancel_handle-Keeps h handles k lost)

pub cancel_handle-loses :
    (h : Handle) (handles : Handles) → is_active (cancel_handle h handles h) ≡ false
unfolding cancel_handle
cancel_handle-loses h handles =
    let same : (h == h) ≡ true = ground arith in rw same (cancel-loses (handles h))

pub cancel_queued-Lost :
    (works : List ScheduledWork) (handles : Handles)
    → Lost (λ work. work.request_handle) (cancel_queued works handles) works
unfolding cancel_queued
cancel_queued-Lost [] handles = tt
cancel_queued-Lost (work ∷ rest) handles = (
  cancel_queued-Keeps rest _ work.request_handle (cancel_handle-loses work.request_handle handles),
  cancel_queued-Lost rest _,
)

pub cancel_active-Lost :
    (pairs : List (Worker × Handle)) (handles : Handles)
    → Lost (λ pair. pair.1) (cancel_active pairs handles) pairs
unfolding cancel_active
cancel_active-Lost [] handles = tt
cancel_active-Lost ((w, h) ∷ rest) handles =
    (cancel_active-Keeps rest _ h (cancel_handle-loses h handles), cancel_active-Lost rest _)

pub busy-without :
    (v w : Worker) (pairs : List (Worker × Handle))
    → is_busy v pairs ≡ false
    → is_busy v (without w pairs) ≡ false
unfolding is_busy
busy-without v w [] h = refl
busy-without v w ((u, a) ∷ rest) h = ground (arith, busy-without v w rest)

-- A worker that is not busy has no pair to erase.
pub without-idle :
    (w : Worker) (pairs : List (Worker × Handle))
    → is_busy w pairs ≡ false
    → without w pairs ≡ pairs
unfolding is_busy
without-idle w [] h = refl
without-idle w ((u, a) ∷ rest) h = ground (arith, without-idle w rest)

pub busy-positive :
    (w : Worker) (pairs : List (Worker × Handle)) → is_busy w pairs ≡ true → 1 ≤ length pairs
unfolding is_busy
busy-positive w [] h = ground arith
busy-positive w ((u, a) ∷ rest) h = omega arith

-- A busy worker has one pair.
pub without-busy :
    (w : Worker) (pairs : List (Worker × Handle))
    → Distinct pairs
    → is_busy w pairs ≡ true
    → length (without w pairs) ≡ length pairs - 1
unfolding is_busy Distinct
without-busy w [] distinct h = refl
without-busy w ((u, a) ∷ rest) distinct h = elim (Bool-cases (u == w)) [
  | inl same ↦
      let e : u ≡ w = (==_iff u w).0 same in
      rw same (
        omega (
          arith,
          ap length (without-idle w rest (subst (λ v. is_busy v rest ≡ false) e distinct.0)),
        ))
  | inr other ↦
      let later : is_busy w rest ≡ true = ground arith in
      let one = busy-positive w rest later in
      rw other (omega (arith, without-busy w rest distinct.1 later, one))
]

pub without-Distinct :
    (w : Worker) (pairs : List (Worker × Handle)) → Distinct pairs → Distinct (without w pairs)
unfolding Distinct
without-Distinct w [] distinct = tt
without-Distinct w ((u, a) ∷ rest) distinct = elim (Bool-cases (u == w)) [
  | inl same ↦ rw same (without-Distinct w rest distinct.1)
  | inr other ↦ rw other (busy-without u w rest distinct.0, without-Distinct w rest distinct.1)
]

pub without-Lost :
    (w : Worker) (handles : Handles) (pairs : List (Worker × Handle))
    → Lost (λ pair. pair.1) handles pairs
    → Lost (λ pair. pair.1) handles (without w pairs)
without-Lost w handles [] lost = tt
without-Lost w handles ((u, a) ∷ rest) lost = elim (Bool-cases (u == w)) [
  | inl same ↦ rw same (without-Lost w handles rest lost.1)
  | inr other ↦ rw other (lost.0, without-Lost w handles rest lost.1)
]
