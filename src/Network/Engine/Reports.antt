-- ===== src/Network/Engine/Reports.antt =====
-- One attempt: where an end comes from, and what is logged of it.
use crossa.Prelude.{
  ℕ, ◌≤◌, ◌<◌, Bool, true, false, not, ◌&&◌, ◌||◌, ◌++◌, ◌==◌, leb, ltb, ◌≡◌, inl, inr, refl, sym,
  ◌∙◌, arith, Bool-cases,
}
use crossa.Network.Engine.{
  HttpMethod, Retry, Failure, Reply, replied, threw, threw_standard, Environment, completed, failed,
  retry, telemetry, Telemetry, after_response, on_error, emit_telemetry, Ended, returned, thrown,
  thrown_standard, cancellation, status_failure, is_retryable_method, is_retryable_status,
  allows_status, Next, ends, waits, Step, handle, reject, refreshing, respond, try_once,
}
use crossa.Network.Engine.Attempts.{sends}
use crossa.Network.Engine.Events.{
  count, count-append, is_completed, is_failed, is_response, Fails, error-failed, answer-failed,
  Fails-none, Fails-of, Fails-append, is_returned, one_if, Completes, error-completed,
  error-response, answer-completed, answer-response, none_zero, none_if, in_front,
}

module _ (env : Environment) where
  -- Where an end comes from: an answer of the transport, or an error of the transport, of the refresh
  -- or of a cancellation.
  pub data Stems : Ended → Type 0 where
    answer :
        (attempt status : ℕ)
        → env.transport attempt ≡ replied status
        → 200 ≤ status
        → status < 300
        → Stems (returned status)
    refused :
        (attempt status : ℕ)
        → env.transport attempt ≡ replied status
        → (leb 200 status && ltb status 300) ≡ false
        → Stems (thrown (status_failure status))
    unsent :
        (attempt : ℕ) (failure : Failure)
        → env.transport attempt ≡ threw failure
        → Stems (thrown failure)
    unsent_standard : (attempt : ℕ) → env.transport attempt ≡ threw_standard → Stems thrown_standard
    unrefreshed :
        (attempt : ℕ) (failure : Failure)
        → env.can_refresh ≡ true
        → env.refresh attempt ≡ threw failure
        → Stems (thrown failure)
    unrefreshed_standard :
        (attempt : ℕ)
        → env.can_refresh ≡ true
        → env.refresh attempt ≡ threw_standard
        → Stems thrown_standard
    stopped : (attempt : ℕ) → env.cancelled_at attempt ≡ true → Stems (thrown cancellation)
    interrupted : (attempt : ℕ) → env.cancelled_in_wait attempt ≡ true → Stems (thrown cancellation)

  -- How often telemetry reports an end as a failure.
  abbrev pub failures : {end : Ended} → Stems end → ℕ
  failures (answer _ _ _ _ _) = 0
  failures (refused _ _ _ _) = 2
  failures (interrupted _ _) = 0
  failures _ = 1

  abbrev pub next_returned : Next → Bool
  next_returned (ends end) = is_returned end
  next_returned _ = false

  abbrev pub StemsNext : Next → Type 0
  StemsNext (ends end) = Stems end
  StemsNext _ = Unit {0}

  abbrev pub failures_next : (next : Next) → StemsNext next → ℕ
  failures_next (ends end) stems = failures stems
  failures_next _ stems = 0

  -- A part of an attempt that logs at most `n` answers.
  pub record Tells (n : ℕ) (step : Step) : Type 0 where
    pub completes : Completes env (next_returned step.1) step.0
    pub logs : count is_response step.0 ≤ n
    pub stems : StemsNext step.1
    pub fails : Fails env (failures_next step.1 stems) step.0

  error-Tells :
      (k : Telemetry) (next : Next)
      → is_completed (telemetry k) ≡ false
      → next_returned next ≡ false
      → (stems : StemsNext next) → one_if (is_failed (telemetry k)) ≡ failures_next next stems
      → Tells 0 (on_error env ++ emit_telemetry env k, next)
  unfolding count
  error-Tells k next plain goes_on stems f = record {
    completes = error-completed env k plain ∙ rw (goes_on, none_zero env) refl;
    logs = omega (arith, error-response env k);
    stems = stems;
    fails = Fails-of env (on_error env ++ emit_telemetry env k) f (error-failed env k);
  }

  module _ (policy : Retry) (method : HttpMethod) where
    handle-Tells :
        (attempt maximum : ℕ) (failure : Failure) (stems : Stems (thrown failure))
        → 1 ≡ failures stems
        → Tells 0 (handle policy method env attempt maximum failure)
    unfolding handle
    handle-Tells attempt maximum failure stems one_failure =
        elim (Bool-cases (
          not failure.is_retryable
          || not (allows_status failure.http_status policy)
          || not (is_retryable_method method policy)
          || attempt == maximum)) [
            | inl stops ↦
                rw stops (error-Tells failed (ends (thrown failure)) refl refl stems one_failure)
            | inr goes ↦ rw goes (error-Tells retry waits refl refl tt refl)
          ]

    looser : (step : Step) → Tells 0 step → Tells 1 step
    looser step t = record {
      completes = t.completes;
      logs = omega (arith, t.logs);
      stems = t.stems;
      fails = t.fails;
    }

    -- A status that `reject` throws is not tried again by the handler that catches it.
    handle-reject :
        (attempt maximum status : ℕ)
        → (not (is_retryable_status status policy)
            || not (is_retryable_method method policy)
            || attempt == maximum)
          ≡ true
        → handle policy method env attempt maximum (status_failure status)
          ≡ (on_error env ++ emit_telemetry env failed, ends (thrown (status_failure status)))
    unfolding handle allows_status status_failure
    handle-reject attempt maximum status h = ground arith

    reject-Tells :
        (attempt maximum status : ℕ) (stems : Stems (thrown (status_failure status)))
        → 2 ≡ failures stems
        → Tells 1 (reject policy method env attempt maximum status)
    unfolding reject
    reject-Tells attempt maximum status stems two =
        elim (Bool-cases (
          not (is_retryable_status status policy)
          || not (is_retryable_method method policy)
          || attempt == maximum)) [
            | inl stops ↦
                rw (stops, handle-reject attempt maximum status stops)
                  (record {
                    completes =
                        in_front env false _ _ (answer-completed env failed ∙ none_zero env)
                          (error-completed env failed refl ∙ sym (none_zero env));
                    logs = omega (
                      arith,
                      count-append is_response (after_response env ++ emit_telemetry env failed)
                          (on_error env ++ emit_telemetry env failed),
                      answer-response env failed,
                      error-response env failed,
                    );
                    stems = stems;
                    fails =
                        Fails-of env
                          ((after_response env ++ emit_telemetry env failed)
                            ++ (on_error env ++ emit_telemetry env failed))
                          two
                          (Fails-append env 1 1 _ _ (answer-failed env failed)
                            (error-failed env failed));
                  })
            | inr goes ↦ rw goes (looser _ (error-Tells retry waits refl refl tt refl))
          ]

    refreshing-Tells :
        (attempt maximum : ℕ) (reply : Reply (Unit {0}))
        → env.can_refresh ≡ true
        → env.refresh attempt ≡ reply
        → Tells 0 (refreshing policy method env attempt maximum reply)
    unfolding refreshing count
    refreshing-Tells attempt maximum (replied done) can e = record {
      completes = none_if env;
      logs = omega arith;
      stems = tt;
      fails = Fails-none env;
    }
    refreshing-Tells attempt maximum (threw failure) can e =
        handle-Tells attempt maximum failure (unrefreshed attempt failure can e) refl
    refreshing-Tells attempt maximum threw_standard can e =
        error-Tells failed (ends thrown_standard) refl refl (unrefreshed_standard attempt can e)
          refl

    returned-Tells :
        (status : ℕ) (stems : Stems (returned status))
        → 0 ≡ failures stems
        → Tells 1 (after_response env ++ emit_telemetry env completed, ends (returned status))
    returned-Tells status stems silent = record {
      completes = answer-completed env completed;
      logs = answer-response env completed;
      stems = stems;
      fails =
          Fails-of env (after_response env ++ emit_telemetry env completed) silent
            (answer-failed env completed);
    }

    respond-Tells :
        (attempt maximum : ℕ) (refreshed : Bool) (reply : Reply ℕ)
        → env.transport attempt ≡ reply
        → Tells 1 (respond policy method env attempt maximum refreshed reply)
    unfolding respond
    respond-Tells attempt maximum refreshed (threw failure) e =
        looser _ (handle-Tells attempt maximum failure (unsent attempt failure e) refl)
    respond-Tells attempt maximum refreshed threw_standard e =
        looser _
          (error-Tells failed (ends thrown_standard) refl refl (unsent_standard attempt e) refl)
    respond-Tells attempt maximum refreshed (replied status) e =
        elim (Bool-cases (leb 200 status && ltb status 300)) [
          | inl success ↦
              rw success
                (returned-Tells status (answer attempt status e (ground arith) (ground arith)) refl)
          | inr failing ↦ elim (Bool-cases (status == 401 && env.can_refresh && not refreshed)) [
            | inl unauthorized ↦
                rw (failing, unauthorized)
                  (looser _
                    (refreshing-Tells attempt maximum (env.refresh attempt) (ground arith) refl))
            | inr final ↦
                rw (failing, final)
                  (reject-Tells attempt maximum status (refused attempt status e failing) refl)
          ]
        ]

    pub try_once-Tells :
        (attempt maximum : ℕ) (refreshed : Bool)
        → let step = try_once policy method env attempt maximum refreshed in
          Tells (sends step.0) step
    unfolding try_once sends count
    try_once-Tells attempt maximum refreshed = elim (Bool-cases (env.cancelled_at attempt)) [
      | inl cancelled ↦
          let t = handle-Tells attempt maximum cancellation (stopped attempt cancelled) refl in
          rw cancelled (record {
            completes = t.completes;
            logs = omega (arith, t.logs);
            stems = t.stems;
            fails = t.fails;
          })
      | inr going ↦
          let t = respond-Tells attempt maximum refreshed (env.transport attempt) refl in
          rw going (record {
            completes = t.completes;
            logs = omega (arith, t.logs);
            stems = t.stems;
            fails = t.fails;
          })
    ]
