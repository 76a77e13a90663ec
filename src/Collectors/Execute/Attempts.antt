-- ===== src/Collectors/Execute/Attempts.antt =====
-- The loop over the attempts ends, and within which bounds.
use homeinfra_control_center.Prelude.{
  ℕ, zero, suc, ◌≤◌, ◌≡◌, ◌≢◌, refl, arith, Bool, true, Option, none, some, List, All, any,
}
use homeinfra_control_center.Prelude.Counting.{All-append}
use homeinfra_control_center.Collectors.Retry.{RetryStrategy}
use homeinfra_control_center.Collectors.Retry.Delays.{IsStrategy, delay_for_bounds}
use homeinfra_control_center.Model.State.{Device}
use homeinfra_control_center.Monitoring.Collections.{CollectorError}
use homeinfra_control_center.Collectors.Connect.{Attempt, answered, refused, broke, Host}
use homeinfra_control_center.Collectors.Execute.{
  Executed, Connect, Probes, Retried, after_attempt, pause_before, retry_loop, execute_commands,
  connect_and_execute, no_attempt, refusal, unless_refused, is_disallowed,
}

abbrev pub Bounded : RetryStrategy → List ℕ → Type 0
Bounded r = All (λ (ms : ℕ). (r.base_delay ≤ ms) × (ms ≤ r.max_delay))

pause_before-Bounded :
    (r : RetryStrategy) (attempt : ℕ) → IsStrategy r → Bounded r (pause_before r attempt)
pause_before-Bounded r zero h = tt
pause_before-Bounded r (suc n) h = (delay_for_bounds r n h, tt)

-- An answer or a CollectorError, never another exception.
abbrev pub Ended : Attempt Executed → Type 0
Ended (answered x) = Unit
Ended (refused e) = Unit
Ended broke = ⊥

-- The run ended after at most so many attempts, with a bounded pause between two of them.
pub record Ends (r : RetryStrategy) (most : ℕ) (run : Retried) : Type 0 where
  pub ended : Ended run.outcome
  pub few : run.attempts ≤ most
  pub bounded : Bounded r run.pauses

after_attempt-Ends :
    (r : RetryStrategy) (attempt most : ℕ) (a : Attempt Executed) (rest : Retried)
    → IsStrategy r
    → Ends r most rest
    → Ends r (suc most) (after_attempt (pause_before r attempt) a rest)
after_attempt-Ends r attempt most (answered x) rest s h = record {
  ended = tt;
  few = omega arith;
  bounded = pause_before-Bounded r attempt s;
}
after_attempt-Ends r attempt most (refused e) rest s h = record {
  ended = tt;
  few = omega arith;
  bounded = pause_before-Bounded r attempt s;
}
after_attempt-Ends r attempt most broke rest s h = record {
  ended = h.ended;
  few = omega (arith, h.few);
  bounded =
      All-append (λ (ms : ℕ). (r.base_delay ≤ ms) × (ms ≤ r.max_delay)) (pause_before r attempt)
        rest.pauses (pause_before-Bounded r attempt s) h.bounded;
}

retry_loop-Ends :
    (r : RetryStrategy) (try : ℕ → Attempt Executed) (attempt left : ℕ)
    → IsStrategy r
    → Ends r left (retry_loop r try attempt left)
unfolding retry_loop
retry_loop-Ends r try attempt zero s = record { ended = tt; few = omega arith; bounded = tt }
retry_loop-Ends r try attempt (suc left) s =
    after_attempt-Ends r attempt left (try attempt) (retry_loop r try (suc attempt) left) s
      (retry_loop-Ends r try (suc attempt) left s)

no_attempt-Ends : (r : RetryStrategy) (most : ℕ) (e : CollectorError) → Ends r most (no_attempt e)
no_attempt-Ends r most e = record { ended = tt; few = omega arith; bounded = tt }

unless_refused-Ends :
    (r : RetryStrategy) (most : ℕ) (o : Option CollectorError) (run : Retried)
    → Ends r most run
    → Ends r most (unless_refused o run)
unless_refused-Ends r most none run h = h
unless_refused-Ends r most (some e) run h = no_attempt-Ends r most e

unless_refused-none :
    (o : Option CollectorError) (run : Retried) → o ≢ none → (unless_refused o run).attempts ≡ 0
unless_refused-none none run h = absurd (h refl)
unless_refused-none (some e) run h = refl

refusal-disallowed :
    (installed : Bool) (d : Device) (probes : Probes) (timeout : ℕ)
    → any is_disallowed probes ≡ true
    → refusal installed d probes timeout ≢ none
unfolding refusal
refusal-disallowed installed d probes timeout h = rw h (λ e. ground arith)

-- For a retry strategy of the form that its constructor makes, running commands over SSH ends
-- with an answer or a CollectorError after at most one more attempt than there are retries,
-- each pause lying between the base delay and the longest one; where a command is not allowed,
-- no attempt is made.
pub execute_commands-Ends :
    (r : RetryStrategy) (installed : Bool) (host : Host) (connect : Connect) (d : Device)
    (probes : Probes) (timeout : ℕ)
    → IsStrategy r
    → Ends r (suc r.max_retries) (execute_commands r installed host connect d probes timeout)
      × (any is_disallowed probes ≡ true
          → (execute_commands r installed host connect d probes timeout).attempts ≡ 0)
unfolding execute_commands
execute_commands-Ends r installed host connect d probes timeout s =
    let most = suc r.max_retries in
    let try = connect_and_execute host connect d probes timeout in
    let stop = refusal installed d probes timeout in
    (
      unless_refused-Ends r most stop (retry_loop r try 0 most) (retry_loop-Ends r try 0 most s),
      λ banned.
          unless_refused-none stop (retry_loop r try 0 most)
            (refusal-disallowed installed d probes timeout banned),
    )
