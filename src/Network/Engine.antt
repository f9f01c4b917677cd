-- ===== src/Network/Engine.antt =====
-- `executePrepared` of src/network/NetworkEngine.cpp: the attempts of one request. What the transport,
-- the refresh of a token and the request handle do at each attempt is an argument.
pub mod Attempts
pub mod Events
pub mod Reports
pub mod Outcome
use crossa.Prelude.{
  ℕ, zero, suc, ◌+◌, Bool, true, false, not, ◌&&◌, ◌||◌, List, [], ◌∷◌, ◌++◌, Option, none, some,
  ◌==◌, leb, ltb, within, if◌then◌else◌,
}

pub data HttpMethod : Type 0 where
  get post put patch delete head options trace connect : HttpMethod

-- `NetworkPolicy::Retry`, without the delays.
pub record Retry : Type 0 where
  pub max_attempts : ℕ
  pub retryable_status_codes : List ℕ
  pub retry_non_idempotent : Bool

-- The parts of a `CrossaError` that decide about another attempt.
pub record Failure : Type 0 where
  pub is_retryable : Bool
  pub http_status : Option ℕ

-- What a call does: it returns, or throws a `CrossaException` or another exception.
pub data Reply {ℓ} (A : Type ℓ) : Type ℓ where
  replied : A → Reply A
  threw : Failure → Reply A
  threw_standard : Reply A

-- By the number of the attempt: whether cancellation was requested at its start or in the wait
-- behind it, the status that the transport returns, and how a refresh of the token goes.
pub record Environment : Type 0 where
  pub cancelled_at : ℕ → Bool
  pub cancelled_in_wait : ℕ → Bool
  pub transport : ℕ → Reply ℕ
  -- an authentication provider is given, with a refresh token and a token URL
  pub can_refresh : Bool
  pub refresh : ℕ → Reply (Unit {0})
  -- isInterceptorEnabled and shouldLogResponses of the configuration, and the telemetry policy of the
  -- request, which parses
  pub interceptor_enabled : Bool
  pub should_log_responses : Bool
  pub telemetry_enabled : Bool

pub data Telemetry : Type 0 where
  completed failed retry : Telemetry

-- What an attempt does outside: it sends, the interceptor logs a response or an error, or telemetry is
-- logged.
pub data Event : Type 0 where
  sent response_logged error_logged : Event
  telemetry : Telemetry → Event

pub data Ended : Type 0 where
  returned : ℕ → Ended
  thrown : Failure → Ended
  thrown_standard : Ended
  -- the error behind the loop
  exhausted : Ended
  -- not an end of the program: the recursion of the model ran out of fuel
  out_of_fuel : Ended

-- `CrossaError::cancellation`, `CrossaError::httpStatus`
abbrev pub cancellation : Failure
cancellation = record { is_retryable = false; http_status = none }

unfoldable pub status_failure : ℕ → Failure
status_failure status = record {
  is_retryable = status == 408 || status == 425 || status == 429 || leb 500 status;
  http_status = some status;
}

-- `isRetryableMethod`
unfoldable pub is_idempotent : HttpMethod → Bool
is_idempotent post = false
is_idempotent patch = false
is_idempotent _ = true

abbrev pub is_retryable_method : HttpMethod → Retry → Bool
is_retryable_method method policy = policy.retry_non_idempotent || is_idempotent method

-- `isRetryableStatus`
unfoldable pub status_in : ℕ → List ℕ → Bool
status_in status [] = false
status_in status (code ∷ codes) = code == status || status_in status codes

abbrev pub is_retryable_status : ℕ → Retry → Bool
is_retryable_status status policy = status_in status policy.retryable_status_codes

-- The flag `retryableStatus` of the handler.
unfoldable pub allows_status : Option ℕ → Retry → Bool
unfolding status_in
allows_status none policy = true
allows_status (some status) policy = is_retryable_status status policy

-- Where an attempt leads: to an end, to the wait, or at once to the next attempt after a refresh.
pub data Next : Type 0 where
  ends : Ended → Next
  waits refreshes : Next

abbrev pub Step : Type 0
Step = List Event × Next

-- `NetworkInterceptor::afterResponse` and `onError`, and `emitTelemetry`: one event for all the lines that
-- a call logs.
unfoldable pub after_response : Environment → List Event
after_response env =
    if not env.interceptor_enabled || not env.should_log_responses then [] else response_logged ∷ []

unfoldable pub on_error : Environment → List Event
on_error env = if not env.interceptor_enabled then [] else error_logged ∷ []

unfoldable pub emit_telemetry : Environment → Telemetry → List Event
emit_telemetry env event = if not env.telemetry_enabled then [] else telemetry event ∷ []

module _ (policy : Retry) (method : HttpMethod) (env : Environment) where
  -- The handler of a `CrossaException`.
  unfoldable pub handle : ℕ → ℕ → Failure → Step
  unfolding is_idempotent allows_status
  handle attempt maximum failure =
      if not failure.is_retryable
        || not (allows_status failure.http_status policy)
        || not (is_retryable_method method policy)
        || attempt == maximum
      then (on_error env ++ emit_telemetry env failed, ends (thrown failure))
      else (on_error env ++ emit_telemetry env retry, waits)

  -- The handler of any other exception.
  abbrev pub handle_standard : Step
  handle_standard = (on_error env ++ emit_telemetry env failed, ends thrown_standard)

  abbrev pub behind : List Event → Step → Step
  behind events step = (events ++ step.0, step.1)

  -- A status that is not a success, and not answered by a refresh. The exception that is thrown in
  -- the `try` is caught by its own handler.
  unfoldable pub reject : ℕ → ℕ → ℕ → Step
  unfolding handle status_failure status_in is_idempotent
  reject attempt maximum status =
      if not (is_retryable_status status policy)
        || not (is_retryable_method method policy)
        || attempt == maximum
      then behind (after_response env ++ emit_telemetry env failed)
          (handle attempt maximum (status_failure status))
      else (on_error env ++ emit_telemetry env retry, waits)

  unfoldable pub refreshing : ℕ → ℕ → Reply (Unit {0}) → Step
  unfolding handle
  refreshing attempt maximum (replied done) = ([], refreshes)
  refreshing attempt maximum (threw failure) = handle attempt maximum failure
  refreshing attempt maximum threw_standard = handle_standard

  -- What follows the transport.
  unfoldable pub respond : ℕ → ℕ → Bool → Reply ℕ → Step
  unfolding reject refreshing handle
  respond attempt maximum refreshed (threw failure) = handle attempt maximum failure
  respond attempt maximum refreshed threw_standard = handle_standard
  respond attempt maximum refreshed (replied status) =
      if leb 200 status && ltb status 300
      then (after_response env ++ emit_telemetry env completed, ends (returned status))
      else if status == 401 && env.can_refresh && not refreshed
      then refreshing attempt maximum (env.refresh attempt)
      else reject attempt maximum status

  -- One round of the loop.
  unfoldable pub try_once : ℕ → ℕ → Bool → Step
  unfolding respond handle
  try_once attempt maximum refreshed =
      if env.cancelled_at attempt
      then handle attempt maximum cancellation
      else behind (sent ∷ []) (respond attempt maximum refreshed (env.transport attempt))

  -- The end of a round, given what the next attempt would do, after a wait or after a refresh.
  unfoldable pub conclude :
      Bool → List Event → List Event × Ended → List Event × Ended → Next → List Event × Ended
  conclude cancelled events next again (ends end) = (events, end)
  conclude cancelled events next again waits =
      if cancelled then (events, thrown cancellation) else (events ++ next.0, next.1)
  conclude cancelled events next again refreshes = (events ++ again.0, again.1)

  -- The loop, from an attempt on, with its limit and the flag of the refresh.
  unfoldable pub attempts : ℕ → ℕ → ℕ → Bool → List Event × Ended
  unfolding try_once conclude
  attempts zero attempt maximum refreshed = ([], out_of_fuel)
  attempts (suc fuel) attempt maximum refreshed =
      let step = try_once attempt maximum refreshed in
      let next = attempts fuel (attempt + 1) maximum refreshed in
      let again = attempts fuel (attempt + 1) (policy.max_attempts + 1) true in
      if ltb maximum attempt
      then ([], exhausted)
      else conclude (env.cancelled_in_wait attempt) step.0 next again step.1

  -- `executePrepared`
  unfoldable pub execute_prepared : List Event × Ended
  unfolding attempts
  execute_prepared = attempts (policy.max_attempts + 2) 1 policy.max_attempts false
