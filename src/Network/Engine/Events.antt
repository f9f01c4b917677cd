-- ===== src/Network/Engine/Events.antt =====
-- The events of an attempt, counted by their kind.
use crossa.Prelude.{
  ℕ, suc, ◌+◌, ◌≤◌, Bool, true, false, ◌&&◌, List, [], ◌∷◌, ◌++◌, if◌then◌else◌, ◌≡◌, inl, inr,
  refl, sym, arith, Bool-cases,
}
use crossa.Network.Engine.{
  Environment, completed, failed, Event, response_logged, telemetry, Telemetry, after_response,
  on_error, emit_telemetry, Ended, returned,
}

-- How many events of a kind there are.
unfoldable pub count : (Event → Bool) → List Event → ℕ
count p [] = 0
count p (e ∷ events) = if p e then suc (count p events) else count p events

pub count-append : (p : Event → Bool) (a b : List Event) → count p (a ++ b) ≡ count p a + count p b
unfolding count
count-append p [] b = omega arith
count-append p (e ∷ a) b = ground (arith, count-append p a b)

abbrev pub is_completed : Event → Bool
is_completed (telemetry completed) = true
is_completed _ = false

abbrev pub is_failed : Event → Bool
is_failed (telemetry failed) = true
is_failed _ = false

abbrev pub is_response : Event → Bool
is_response response_logged = true
is_response _ = false

abbrev pub is_returned : Ended → Bool
is_returned (returned status) = true
is_returned _ = false

abbrev pub one_if : Bool → ℕ
one_if b = if b then 1 else 0

module _ (env : Environment) where
  -- One completion is emitted for a result, and none for an error.
  abbrev pub Completes : Bool → List Event → Type 0
  Completes b events = count is_completed events ≡ one_if (env.telemetry_enabled && b)

  pub error-completed :
      (k : Telemetry)
      → is_completed (telemetry k) ≡ false
      → count is_completed (on_error env ++ emit_telemetry env k) ≡ 0
  unfolding count on_error emit_telemetry
  error-completed k h =
      ground (arith, count-append is_completed (on_error env) (emit_telemetry env k))

  pub error-response :
      (k : Telemetry) → count is_response (on_error env ++ emit_telemetry env k) ≡ 0
  unfolding count on_error emit_telemetry
  error-response k = ground (arith, count-append is_response (on_error env) (emit_telemetry env k))

  pub answer-completed :
      (k : Telemetry)
      → Completes (is_completed (telemetry k)) (after_response env ++ emit_telemetry env k)
  unfolding count after_response emit_telemetry
  answer-completed k =
      ground (arith, count-append is_completed (after_response env) (emit_telemetry env k))

  pub answer-response :
      (k : Telemetry) → count is_response (after_response env ++ emit_telemetry env k) ≤ 1
  unfolding count after_response emit_telemetry
  answer-response k =
      ground (arith, count-append is_response (after_response env) (emit_telemetry env k))

  pub none_zero : one_if (env.telemetry_enabled && false) ≡ 0
  none_zero = elim (Bool-cases env.telemetry_enabled) [
    | inl on ↦ rw on refl
    | inr off ↦ rw off refl
  ]

  pub none_if : Completes false []
  unfolding count
  none_if = sym none_zero

  -- Events in front that complete nothing.
  pub in_front :
      (b : Bool) (a c : List Event)
      → count is_completed a ≡ 0
      → Completes b c
      → Completes b (a ++ c)
  in_front b a c plain h = omega (arith, count-append is_completed a c, plain, h)

  -- `n` failures are emitted.
  abbrev pub Fails : ℕ → List Event → Type 0
  Fails n events = count is_failed events ≡ (if env.telemetry_enabled then n else 0)

  pub error-failed :
      (k : Telemetry)
      → Fails (one_if (is_failed (telemetry k))) (on_error env ++ emit_telemetry env k)
  unfolding count on_error emit_telemetry
  error-failed k = ground (arith, count-append is_failed (on_error env) (emit_telemetry env k))

  pub answer-failed :
      (k : Telemetry)
      → Fails (one_if (is_failed (telemetry k))) (after_response env ++ emit_telemetry env k)
  unfolding count after_response emit_telemetry
  answer-failed k =
      ground (arith, count-append is_failed (after_response env) (emit_telemetry env k))

  pub Fails-none : Fails 0 []
  unfolding count
  Fails-none = ground arith

  pub Fails-append : (m n : ℕ) (a b : List Event) → Fails m a → Fails n b → Fails (m + n) (a ++ b)
  Fails-append m n a b ha hb = ground (arith, count-append is_failed a b)

  pub Fails-of : {m n : ℕ} (events : List Event) → m ≡ n → Fails m events → Fails n events
  Fails-of events e h = rw (← e) h
