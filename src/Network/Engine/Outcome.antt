-- ===== src/Network/Engine/Outcome.antt =====
-- Whole runs of the loop: where the end of a request comes from, and what is logged of it.
use crossa.Prelude.{
  if◌then◌else◌, ℕ, zero, suc, ◌+◌, ◌≤◌, Bool, true, false, ◌&&◌, List, ◌++◌, ltb, ◌≡◌, ◌≢◌, ◌⊎◌,
  inl, inr, refl, ◌∙◌, arith, Bool-cases,
}
use crossa.Network.Engine.{
  HttpMethod, Retry, Environment, Event, Ended, exhausted, out_of_fuel, ends, waits, refreshes,
  Step, try_once, conclude, attempts, execute_prepared,
}
use crossa.Network.Engine.Attempts.{sends, sends-append, execute_prepared-IsBounded}
use crossa.Network.Engine.Events.{
  count, count-append, is_completed, is_failed, is_response, Fails, Fails-of, Fails-append,
  is_returned, one_if, Completes, none_zero, none_if, in_front,
}
use crossa.Network.Engine.Reports.{Stems, interrupted, failures, Tells, try_once-Tells}

module _ (env : Environment) (policy : Retry) (method : HttpMethod) where
  abbrev FailsEnd :
      {end : Ended} → List Event → Stems env end ⊎ (end ≡ exhausted) ⊎ (end ≡ out_of_fuel) → Type 0
  FailsEnd events (inl stems) = Fails env (failures env stems) events
  FailsEnd events (inr unknown) = Unit {0}

  FailsEnd-append :
      {end : Ended} (stems : Stems env end ⊎ (end ≡ exhausted) ⊎ (end ≡ out_of_fuel))
      (events later : List Event)
      → Fails env 0 events
      → FailsEnd later stems
      → FailsEnd (events ++ later) stems
  FailsEnd-append (inl stems) events later none_yet h =
      Fails-of env (events ++ later) (omega arith)
        (Fails-append env 0 (failures env stems) events later none_yet h)
  FailsEnd-append (inr unknown) events later none_yet h = tt

  -- What a run of the loop tells.
  record Told (result : List Event × Ended) : Type 0 where
    completes : Completes env (is_returned result.1) result.0
    logs : count is_response result.0 ≤ sends result.0
    stems : Stems env result.1 ⊎ (result.1 ≡ exhausted) ⊎ (result.1 ≡ out_of_fuel)
    fails : FailsEnd result.0 stems

  joined-Told :
      (events : List Event) (later : List Event × Ended)
      → Completes env false events
      → count is_response events ≤ sends events
      → Fails env 0 events
      → Told later
      → Told (events ++ later.0, later.1)
  joined-Told events later plain few none_yet t = record {
    completes = in_front env _ events later.0 (plain ∙ none_zero env) t.completes;
    logs =
        omega (arith, count-append is_response events later.0, sends-append events later.0, t.logs);
    stems = t.stems;
    fails = FailsEnd-append t.stems events later.0 none_yet t.fails;
  }

  conclude-Told :
      (attempt : ℕ) (step : Step) (next again : List Event × Ended)
      → Tells env (sends step.0) step
      → Told next
      → Told again
      → Told (conclude policy method env (env.cancelled_in_wait attempt) step.0 next again step.1)
  unfolding conclude
  conclude-Told attempt (events, ends end) next again t tn ta = record {
    completes = t.completes;
    logs = t.logs;
    stems = inl t.stems;
    fails = t.fails;
  }
  conclude-Told attempt (events, waits) next again t tn ta =
      elim (Bool-cases (env.cancelled_in_wait attempt)) [
        | inl cancelled ↦ rw cancelled (record {
          completes = t.completes;
          logs = t.logs;
          stems = inl (interrupted attempt cancelled);
          fails = t.fails;
        })
        | inr goes ↦ rw goes (joined-Told events next t.completes t.logs t.fails tn)
      ]
  conclude-Told attempt (events, refreshes) next again t tn ta =
      joined-Told events again t.completes t.logs t.fails ta

  attempts-Told :
      (fuel attempt maximum : ℕ) (refreshed : Bool)
      → Told (attempts policy method env fuel attempt maximum refreshed)
  unfolding attempts count
  attempts-Told zero attempt maximum refreshed = record {
    completes = none_if env;
    logs = omega arith;
    stems = inr (inr refl);
    fails = tt;
  }
  attempts-Told (suc fuel) attempt maximum refreshed = elim (Bool-cases (ltb maximum attempt)) [
    | inl over ↦
        rw over (record {
          completes = none_if env;
          logs = omega arith;
          stems = inr (inl refl);
          fails = tt;
        })
    | inr room ↦ rw room (
        conclude-Told attempt (try_once policy method env attempt maximum refreshed)
          (attempts policy method env fuel (attempt + 1) maximum refreshed)
          (attempts policy method env fuel (attempt + 1) (policy.max_attempts + 1) true)
          (try_once-Tells env policy method attempt maximum refreshed)
          (attempts-Told fuel (attempt + 1) maximum refreshed)
          (attempts-Told fuel (attempt + 1) (policy.max_attempts + 1) true))
  ]

  -- If the policy allows one attempt or more, then what the request ends with comes from outside: a
  -- response is an answer of the transport with a status from 200 to 299, and an exception is the status
  -- of another answer, an exception of the transport or of a refresh where a token can be refreshed, or
  -- a cancellation at the start of an attempt or in a wait. If telemetry is enabled, a completion is
  -- emitted once for a response and never for an exception, and a failure twice for a status, never for
  -- a response and a cancellation in a wait, and once for every other exception; else neither is
  -- emitted. There are no more responses logged than requests sent.
  pub execute_prepared-Stems :
      1 ≤ policy.max_attempts
      → let result = execute_prepared policy method env in
        (stems : Stems env result.1) × (count is_failed result.0
          ≡ (if env.telemetry_enabled then failures env stems else 0))
        × (count is_completed result.0 ≡ one_if (env.telemetry_enabled && is_returned result.1))
        × (count is_response result.0 ≤ sends result.0)
  unfolding execute_prepared
  execute_prepared-Stems positive =
      let bounded = execute_prepared-IsBounded policy method env positive in
      let told = attempts-Told (policy.max_attempts + 2) 1 policy.max_attempts false in
      let (stems, fails) = settled _ _ told.stems told.fails bounded.0 bounded.1 in
      (stems, fails, told.completes, told.logs)
    where
      settled :
          (end : Ended) (events : List Event)
          (stems : Stems env end ⊎ (end ≡ exhausted) ⊎ (end ≡ out_of_fuel))
          → FailsEnd events stems
          → end ≢ exhausted
          → end ≢ out_of_fuel
          → (stems : Stems env end) × Fails env (failures env stems) events
      settled end events (inl stems) fails a b = (stems, fails)
      settled end events (inr (inl e)) fails a b = absurd (a e)
      settled end events (inr (inr e)) fails a b = absurd (b e)
