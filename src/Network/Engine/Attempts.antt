-- ===== src/Network/Engine/Attempts.antt =====
-- How often a request is sent, and how its attempts end.
use crossa.Prelude.{
  ℕ, zero, suc, ◌+◌, ◌≤◌, ◌≢◌, Bool, true, false, not, ◌&&◌, ◌||◌, List, [], ◌∷◌, ◌++◌, ◌==◌, leb,
  ltb, if◌then◌else◌, ◌≡◌, refl, arith, Bool-cases, inl, inr,
}
use crossa.Network.Engine.{
  HttpMethod, Retry, Failure, Reply, replied, threw, threw_standard, Environment, completed, failed,
  Event, sent, response_logged, error_logged, telemetry, Telemetry, retry, after_response, on_error,
  emit_telemetry, Ended, returned, thrown, exhausted, out_of_fuel, cancellation, status_failure,
  is_retryable_method, is_retryable_status, allows_status, Next, ends, waits, refreshes, Step,
  handle, handle_standard, behind, reject, refreshing, respond, try_once, conclude, attempts,
  execute_prepared,
}

-- How often the request is given to the transport.
unfoldable pub sends : List Event → ℕ
sends [] = 0
sends (sent ∷ events) = suc (sends events)
sends (response_logged ∷ events) = sends events
sends (error_logged ∷ events) = sends events
sends (telemetry kind ∷ events) = sends events

pub sends-append : (a b : List Event) → sends (a ++ b) ≡ sends a + sends b
unfolding sends
sends-append [] b = omega arith
sends-append (sent ∷ a) b = omega (arith, sends-append a b)
sends-append (response_logged ∷ a) b = sends-append a b
sends-append (error_logged ∷ a) b = sends-append a b
sends-append (telemetry kind ∷ a) b = sends-append a b

-- What is logged and emitted is not sent.
response-quiet :
    (env : Environment) (k : Telemetry) → sends (after_response env ++ emit_telemetry env k) ≤ 0
unfolding sends after_response emit_telemetry
response-quiet env k = ground (arith, sends-append (after_response env) (emit_telemetry env k))

error-quiet : (env : Environment) (k : Telemetry) → sends (on_error env ++ emit_telemetry env k) ≤ 0
unfolding sends on_error emit_telemetry
error-quiet env k = ground (arith, sends-append (on_error env) (emit_telemetry env k))

module _ (policy : Retry) (method : HttpMethod) (env : Environment) where
  -- What an attempt may lead to.
  Allowed : ℕ → ℕ → Bool → Next → Type 0
  Allowed attempt maximum refreshed (ends end) = (end ≢ exhausted) × (end ≢ out_of_fuel)
  Allowed attempt maximum refreshed waits =
      ((attempt == maximum) ≡ false) × (is_retryable_method method policy ≡ true)
  Allowed attempt maximum refreshed refreshes = (refreshed ≡ false) × (env.can_refresh ≡ true)

  Fair : ℕ → ℕ → Bool → ℕ → Step → Type 0
  Fair attempt maximum refreshed bound step =
      (sends step.0 ≤ bound) × Allowed attempt maximum refreshed step.1

  handle-Fair :
      (attempt maximum : ℕ) (refreshed : Bool) (failure : Failure)
      → Fair attempt maximum refreshed 0 (handle policy method env attempt maximum failure)
  unfolding handle Fair Allowed sends
  handle-Fair attempt maximum refreshed failure =
      elim (Bool-cases (
        not failure.is_retryable
        || not (allows_status failure.http_status policy)
        || not (is_retryable_method method policy)
        || attempt == maximum)) [
          | inl stops ↦ rw stops (error-quiet env failed, (λ e. cc, λ e. cc))
          | inr goes ↦ rw goes (error-quiet env retry, (ground arith, ground arith))
        ]

  behind-Fair :
      (attempt maximum : ℕ) (refreshed : Bool) (events : List Event) (step : Step) (n : ℕ)
      → sends events ≤ n
      → Fair attempt maximum refreshed 0 step
      → Fair attempt maximum refreshed n (behind policy method env events step)
  unfolding Fair
  behind-Fair attempt maximum refreshed events step n le fair =
      (omega (arith, sends-append events step.0, fair.0), fair.1)

  standard-Fair :
      (attempt maximum : ℕ) (refreshed : Bool)
      → Fair attempt maximum refreshed 0 (handle_standard policy method env)
  unfolding Fair Allowed sends
  standard-Fair attempt maximum refreshed = (error-quiet env failed, (λ e. cc, λ e. cc))

  reject-Fair :
      (attempt maximum : ℕ) (refreshed : Bool) (status : ℕ)
      → Fair attempt maximum refreshed 0 (reject policy method env attempt maximum status)
  unfolding reject Fair Allowed sends
  reject-Fair attempt maximum refreshed status =
      elim (Bool-cases (
        not (is_retryable_status status policy)
        || not (is_retryable_method method policy)
        || attempt == maximum)) [
          | inl stops ↦ rw stops (
              behind-Fair attempt maximum refreshed
                (after_response env ++ emit_telemetry env failed)
                (handle policy method env attempt maximum (status_failure status)) 0
                (response-quiet env failed)
                (handle-Fair attempt maximum refreshed (status_failure status)))
          | inr goes ↦ rw goes (error-quiet env retry, (ground arith, ground arith))
        ]

  refreshing-Fair :
      (attempt maximum : ℕ) (refreshed : Bool) (reply : Reply (Unit {0}))
      → refreshed ≡ false
      → env.can_refresh ≡ true
      → Fair attempt maximum refreshed 0 (refreshing policy method env attempt maximum reply)
  unfolding refreshing Fair Allowed sends
  refreshing-Fair attempt maximum refreshed (replied done) fresh can = (omega arith, (fresh, can))
  refreshing-Fair attempt maximum refreshed (threw failure) fresh can =
      handle-Fair attempt maximum refreshed failure
  refreshing-Fair attempt maximum refreshed threw_standard fresh can =
      standard-Fair attempt maximum refreshed

  returned-Fair :
      (attempt maximum : ℕ) (refreshed : Bool) (status : ℕ)
      → Fair attempt maximum refreshed 0
          (after_response env ++ emit_telemetry env completed, ends (returned status))
  unfolding Fair Allowed sends
  returned-Fair attempt maximum refreshed status =
      (response-quiet env completed, (λ e. cc, λ e. cc))

  one : sends (sent ∷ []) ≤ 1
  unfolding sends
  one = omega arith

  respond-Fair :
      (attempt maximum : ℕ) (refreshed : Bool) (reply : Reply ℕ)
      → Fair attempt maximum refreshed 0 (respond policy method env attempt maximum refreshed reply)
  unfolding respond
  respond-Fair attempt maximum refreshed (threw failure) =
      handle-Fair attempt maximum refreshed failure
  respond-Fair attempt maximum refreshed threw_standard = standard-Fair attempt maximum refreshed
  respond-Fair attempt maximum refreshed (replied status) =
      elim (Bool-cases (leb 200 status && ltb status 300)) [
        | inl success ↦ rw success (returned-Fair attempt maximum refreshed status)
        | inr failing ↦ elim (Bool-cases (status == 401 && env.can_refresh && not refreshed)) [
          | inl unauthorized ↦
              rw (failing, unauthorized)
                (refreshing-Fair attempt maximum refreshed (env.refresh attempt) (ground arith)
                  (ground arith))
          | inr final ↦ rw (failing, final) (reject-Fair attempt maximum refreshed status)
        ]
      ]

  try_once-Fair :
      (attempt maximum : ℕ) (refreshed : Bool)
      → Fair attempt maximum refreshed 1 (try_once policy method env attempt maximum refreshed)
  unfolding try_once Fair
  try_once-Fair attempt maximum refreshed = elim (Bool-cases (env.cancelled_at attempt)) [
    | inl cancelled ↦
        let fair = handle-Fair attempt maximum refreshed cancellation in
        rw cancelled (omega (arith, fair.0), fair.1)
    | inr going ↦ rw going (
        behind-Fair attempt maximum refreshed (sent ∷ [])
          (respond policy method env attempt maximum refreshed (env.transport attempt)) 1 one
          (respond-Fair attempt maximum refreshed (env.transport attempt)))
  ]

  -- The sends that a refresh allows beyond the attempts of the policy.
  abbrev extra : Bool → ℕ
  extra refreshed = if env.can_refresh && not refreshed then 1 else 0

  -- The sends that are left at an attempt.
  record Good (attempt : ℕ) (refreshed : Bool) (result : List Event × Ended) : Type 0 where
    within_limit : sends result.0 + attempt ≤ policy.max_attempts + 1 + extra false
    once : is_retryable_method method policy ≡ false → sends result.0 ≤ 1 + extra refreshed
    not_exhausted : result.1 ≢ exhausted
    has_fuel : result.1 ≢ out_of_fuel

  -- The limit of the loop is the policy's, and one more after a refresh.
  Limit : ℕ → ℕ → Bool → Type 0
  Limit attempt maximum true =
      (maximum ≡ policy.max_attempts + 1) × (env.can_refresh ≡ true) × (attempt ≤ maximum)
  Limit attempt maximum false = (maximum ≡ policy.max_attempts) × (attempt ≤ maximum)

  extra-true : extra true ≡ 0
  extra-true = elim (Bool-cases env.can_refresh) [
    | inl can ↦ rw can refl
    | inr cannot ↦ rw cannot refl
  ]

  extra-can : env.can_refresh ≡ true → extra false ≡ 1
  extra-can can = rw can refl

  Limit-le :
      (attempt maximum : ℕ) (refreshed : Bool)
      → Limit attempt maximum refreshed
      → attempt ≤ policy.max_attempts + extra false
  unfolding Limit
  Limit-le attempt maximum true limit = omega (arith, limit.0, limit.2, extra-can limit.1)
  Limit-le attempt maximum false limit = omega (arith, limit.0, limit.1)

  extra-false : extra false ≡ (if env.can_refresh then 1 else 0)
  extra-false = elim (Bool-cases env.can_refresh) [
    | inl can ↦ rw can refl
    | inr cannot ↦ rw cannot refl
  ]

  extra-le : extra false ≤ 1
  extra-le = elim (Bool-cases env.can_refresh) [
    | inl can ↦ rw can (omega arith)
    | inr cannot ↦ rw cannot (omega arith)
  ]

  Limit-room :
      (attempt maximum : ℕ) (refreshed : Bool)
      → Limit attempt maximum refreshed
      → ltb maximum attempt ≡ false
  unfolding Limit
  Limit-room attempt maximum true limit = ground (arith, limit.2)
  Limit-room attempt maximum false limit = ground (arith, limit.1)

  Limit-next :
      (attempt maximum : ℕ) (refreshed : Bool)
      → Limit attempt maximum refreshed
      → (attempt == maximum) ≡ false
      → Limit (attempt + 1) maximum refreshed
  unfolding Limit
  Limit-next attempt maximum true limit other = (limit.0, limit.1, ground (arith, limit.2))
  Limit-next attempt maximum false limit other = (limit.0, ground (arith, limit.1))

  end-Good :
      (attempt maximum : ℕ) (refreshed : Bool) (events : List Event) (end : Ended)
      → Limit attempt maximum refreshed
      → sends events ≤ 1
      → end ≢ exhausted
      → end ≢ out_of_fuel
      → Good attempt refreshed (events, end)
  end-Good attempt maximum refreshed events end limit few lasts fuelled = record {
    within_limit = omega (arith, Limit-le attempt maximum refreshed limit);
    once = λ h. omega arith;
    not_exhausted = lasts;
    has_fuel = fuelled;
  }

  wait-Good :
      (attempt maximum : ℕ) (refreshed cancelled : Bool) (events : List Event)
      (next : List Event × Ended)
      → Limit attempt maximum refreshed
      → sends events ≤ 1
      → is_retryable_method method policy ≡ true
      → Good (attempt + 1) refreshed next
      → Good attempt refreshed
          (if cancelled then (events, thrown cancellation) else (events ++ next.0, next.1))
  wait-Good attempt maximum refreshed true events next limit few can later =
      end-Good attempt maximum refreshed events (thrown cancellation) limit few (λ e. cc) (λ e. cc)
  wait-Good attempt maximum refreshed false events next limit few can later = record {
    within_limit = omega (arith, sends-append events next.0, later.within_limit);
    once = λ h. absurd (ground arith);
    not_exhausted = later.not_exhausted;
    has_fuel = later.has_fuel;
  }

  refresh-Good :
      (attempt : ℕ) (events : List Event) (again : List Event × Ended)
      → sends events ≤ 1
      → env.can_refresh ≡ true
      → Good (attempt + 1) true again
      → Good attempt false (events ++ again.0, again.1)
  refresh-Good attempt events again few can later = record {
    within_limit = omega (arith, sends-append events again.0, later.within_limit);
    once = λ h. omega (arith, sends-append events again.0, later.once h, extra-true, extra-can can);
    not_exhausted = later.not_exhausted;
    has_fuel = later.has_fuel;
  }

  conclude-Good :
      (attempt maximum : ℕ) (refreshed cancelled : Bool) (events : List Event)
      (next again : List Event × Ended) (lead : Next)
      → Limit attempt maximum refreshed
      → sends events ≤ 1
      → Allowed attempt maximum refreshed lead
      → (Limit (attempt + 1) maximum refreshed → Good (attempt + 1) refreshed next)
      → (Limit (attempt + 1) (policy.max_attempts + 1) true → Good (attempt + 1) true again)
      → Good attempt refreshed (conclude policy method env cancelled events next again lead)
  unfolding conclude Allowed Limit
  conclude-Good attempt maximum refreshed cancelled events next again (ends end) limit few allowed
        later anew =
      end-Good attempt maximum refreshed events end limit few allowed.0 allowed.1
  conclude-Good attempt maximum refreshed cancelled events next again waits limit few allowed later
        anew =
      wait-Good attempt maximum refreshed cancelled events next limit few allowed.1
        (later (Limit-next attempt maximum refreshed limit allowed.0))
  conclude-Good attempt maximum true cancelled events next again refreshes limit few allowed later
        anew =
      absurd (ground (arith, allowed.0))
  conclude-Good attempt maximum false cancelled events next again refreshes limit few allowed later
        anew =
      refresh-Good attempt events again few allowed.1
        (anew (refl, allowed.1, omega (arith, limit.0, limit.1)))

  attempts-Good :
      (fuel attempt maximum : ℕ) (refreshed : Bool)
      → fuel + attempt ≡ policy.max_attempts + 3
      → Limit attempt maximum refreshed
      → Good attempt refreshed (attempts policy method env fuel attempt maximum refreshed)
  unfolding attempts Fair
  attempts-Good zero attempt maximum refreshed enough limit =
      absurd (omega (arith, Limit-le attempt maximum refreshed limit, extra-le))
  attempts-Good (suc fuel) attempt maximum refreshed enough limit =
      let step = try_once policy method env attempt maximum refreshed in
      let fair = try_once-Fair attempt maximum refreshed in
      let room : ltb maximum attempt ≡ false = Limit-room attempt maximum refreshed limit in
      rw room (
        conclude-Good attempt maximum refreshed (env.cancelled_in_wait attempt) step.0
          (attempts policy method env fuel (attempt + 1) maximum refreshed)
          (attempts policy method env fuel (attempt + 1) (policy.max_attempts + 1) true) step.1
          limit fair.0 fair.1
          (λ l. attempts-Good fuel (attempt + 1) maximum refreshed (omega arith) l)
          (λ l. attempts-Good fuel (attempt + 1) (policy.max_attempts + 1) true (omega arith) l))

  prepared-Good : 1 ≤ policy.max_attempts → Good 1 false (execute_prepared policy method env)
  unfolding execute_prepared Limit
  prepared-Good positive =
      attempts-Good (policy.max_attempts + 2) 1 policy.max_attempts false (omega arith)
        (refl, positive)

  -- If the policy allows one attempt or more, then the loop is never left at its end, and the request
  -- is sent at most as often as the policy allows, and once more if a token can be refreshed.
  pub execute_prepared-IsBounded :
      1 ≤ policy.max_attempts
      → let result = execute_prepared policy method env in
        let more : ℕ = if env.can_refresh then 1 else 0 in
        (result.1 ≢ exhausted)
        × (result.1 ≢ out_of_fuel)
        × (sends result.0 ≤ policy.max_attempts + more)
  execute_prepared-IsBounded positive =
      let good = prepared-Good positive in
      (good.not_exhausted, good.has_fuel, omega (arith, good.within_limit, extra-false))

  -- A request whose method may not be repeated by the policy is sent at most once, and at most twice
  -- if a token can be refreshed.
  pub execute_prepared-once :
      1 ≤ policy.max_attempts
      → is_retryable_method method policy ≡ false
      → let more : ℕ = if env.can_refresh then 1 else 0 in
        sends (execute_prepared policy method env).0 ≤ 1 + more
  execute_prepared-once positive single =
      omega (arith, (prepared-Good positive).once single, extra-false)
