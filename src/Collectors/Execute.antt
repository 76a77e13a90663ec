-- ===== src/Collectors/Execute.antt =====
-- The collectors of homeinfra/collectors.py. What the SSH library does is a parameter: whether it is
-- installed, what each attempt to connect comes to, and what each command prints.
pub mod Attempts
use homeinfra_control_center.Prelude.{
  ℕ, zero, suc, ◌+◌, ◌-◌, ◌/◌, Bool, true, false, ◌&&◌, ◌||◌, not, Option, none, some, List, [],
  ◌∷◌, ◌++◌, String, Text, txt, ◌==◌, strip, lower, contains, mem, is_empty, any, take, or_else,
  min, max, if◌then◌else◌, nat_eq,
}
use homeinfra_control_center.Prelude.Int.{ℤ, pos, negsuc}
use homeinfra_control_center.Ids.{emit}
use homeinfra_control_center.Model.State.{Device}
use homeinfra_control_center.Monitoring.Collections.{CollectorError}
use homeinfra_control_center.Parsers.Text.{ends_with}
use homeinfra_control_center.Collectors.Commands.{command_allowed}
use homeinfra_control_center.Collectors.Connect.{
  Attempt, answered, refused, broke, collector_error, Host, ConnectArguments, build_connect_kwargs,
}
use homeinfra_control_center.Collectors.Retry.{RetryStrategy, delay_for}

-- A probe is its key and its command; the outputs are a dictionary from keys to texts.
abbrev pub Probes : Type 0
Probes = List (Text × Text)

abbrev pub Outputs : Type 0
Outputs = List (Text × Text)

-- `results[key] = output`
unfoldable pub set_output : Text → Text → Outputs → Outputs
set_output key output [] = (key, output) ∷ []
set_output key output ((k, o) ∷ outputs) =
    if key == k then (key, output) ∷ outputs else (k, o) ∷ set_output key output outputs

pub record CommandError : Type 0 where
  pub command_id : Text
  pub command : Text
  pub exit_code : Option ℤ
  pub stderr : Text
  pub stdout : Text
  pub error_type : Text
  pub error_message : Text

pub record Executed : Type 0 where
  pub results : Outputs
  pub command_errors : List CommandError

-- The test of all commands before anything runs.
abbrev pub is_disallowed : Text × Text → Bool
is_disallowed (key, command) = not (command_allowed command)

abbrev pub not_allowed : CollectorError
not_allowed = collector_error "collector command is not allowed" "critical" none

abbrev pub bad_timeout : CollectorError
bad_timeout = collector_error "timeout must be positive" "warning" none

-- `DisabledCollector.execute_commands`
unfoldable pub execute_disabled : Attempt Executed
execute_disabled =
    refused (collector_error "采集已禁用" "disabled" (some (txt "global_collector_disabled")))

abbrev pub fixture : Text → Outputs → Text
fixture key [] = []
fixture key ((k, o) ∷ fixtures) = if key == k then o else fixture key fixtures

-- The loop of `MockCommandCollector.execute_commands` over `MOCK_FIXTURES`.
unfoldable pub mock_outputs : Outputs → Probes → Outputs → Attempt Executed
unfolding set_output command_allowed
mock_outputs fixtures [] results = answered (record { results = results; command_errors = [] })
mock_outputs fixtures ((key, command) ∷ probes) results =
    let rest = mock_outputs fixtures probes (set_output key (fixture key fixtures) results) in
    if command_allowed command then rest else refused not_allowed

abbrev pub is_unreachable : Device → Bool
is_unreachable d =
    lower d.status == txt "offline"
    || ends_with (txt ".250") d.host
    || contains (txt "offline") d.host

unfoldable pub execute_mock : Outputs → Device → Probes → ℕ → Attempt Executed
unfolding mock_outputs ends_with contains lower
execute_mock fixtures d probes timeout =
    if nat_eq timeout 0
    then refused bad_timeout
    else if not d.enabled
    then refused (collector_error "device is disabled" "warning" none)
    else if is_unreachable d
    then refused (collector_error "ssh timeout contacting host" "critical" none)
    else mock_outputs fixtures probes []

-- What a command came to: its outputs and exit code, or an exception after what was read so far.
pub data CommandRun : Type 0 where
  done : (stdout stderr : Text) (exit_code : ℤ) → CommandRun
  raised : (stdout stderr message : Text) → CommandRun

-- A number in decimal digits.
abbrev pub shown_ℤ : ℤ → Text
shown_ℤ (pos zero) = txt "0"
shown_ℤ (pos (suc n)) = emit (suc n) (suc n) []
shown_ℤ (negsuc n) = b'-' ∷ emit (suc n) (suc n) []

abbrev pub is_success : ℤ → Bool
is_success (pos n) = nat_eq n 0
is_success (negsuc n) = false

unfoldable pub run_error : Text → Text → CommandRun → Option CommandError
unfolding lower contains strip
run_error key command (raised stdout stderr message) = some (record {
  command_id = key;
  command = command;
  exit_code = none;
  stderr = take 500 stderr;
  stdout = take 500 stdout;
  error_type =
      if contains (txt "timeout") (lower message) then txt "timeout" else txt "channel_error";
  error_message = message;
})
run_error key command (done stdout stderr exit_code) =
    if is_success exit_code
    then none
    else some (record {
      command_id = key;
      command = command;
      exit_code = some exit_code;
      stderr = take 500 stderr;
      stdout = take 500 stdout;
      error_type = txt "non_zero_exit";
      error_message = or_else (take 200 (strip stderr)) (txt "exit code " ++ shown_ℤ exit_code);
    })

unfoldable pub run_output : CommandRun → Text
unfolding strip
run_output (raised stdout stderr message) = []
run_output (done stdout stderr exit_code) = strip stdout

abbrev pub with_error : Option CommandError → List CommandError → List CommandError
with_error none errors = errors
with_error (some e) errors = errors ++ (e ∷ [])

-- The loop over the probes, given what each command comes to.
unfoldable pub run_probes : (Text → CommandRun) → Probes → Executed → Executed
unfolding set_output run_error run_output
run_probes exec [] x = x
run_probes exec ((key, command) ∷ probes) x = run_probes exec probes (record {
  results = set_output key (run_output (exec command)) x.results;
  command_errors = with_error (run_error key command (exec command)) x.command_errors;
})

-- `_connect_and_execute`, given what the SSH library makes of the arguments: `none` is an exception.
abbrev pub run_connected : Probes → Attempt (Option (Text → CommandRun)) → Attempt Executed
run_connected probes (refused e) = refused e
run_connected probes broke = broke
run_connected probes (answered none) = broke
run_connected probes (answered (some exec)) =
    answered (run_probes exec probes (record { results = []; command_errors = [] }))

-- The SSH library: an attempt at a connection gives the command runner.
abbrev pub Connect : Type 0
Connect = ℕ → ConnectArguments → Option (Text → CommandRun)

abbrev pub connected : Connect → ℕ → Attempt ConnectArguments → Attempt (Option (Text → CommandRun))
connected connect attempt (refused e) = refused e
connected connect attempt broke = broke
connected connect attempt (answered arguments) = answered (connect attempt arguments)

unfoldable pub connect_and_execute : Host → Connect → Device → Probes → ℕ → ℕ → Attempt Executed
unfolding build_connect_kwargs run_probes
connect_and_execute host connect d probes timeout attempt =
    run_connected probes
      (connected connect attempt (build_connect_kwargs host d (max 3 (timeout / 2))))

-- How a run of attempts ended, how many there were, and how long each pause was.
pub record Retried : Type 0 where
  pub outcome : Attempt Executed
  pub attempts : ℕ
  pub pauses : List ℕ

-- `if attempt > 0: time.sleep(delay_for(attempt - 1))`
abbrev pub pause_before : RetryStrategy → ℕ → List ℕ
pause_before r zero = []
pause_before r (suc n) = delay_for r n ∷ []

abbrev pub gave_up : CollectorError
gave_up = collector_error "SSH 采集失败（重试 {} 次后仍失败）" "critical" none

-- An attempt, and the rest of the loop where it broke.
abbrev pub after_attempt : List ℕ → Attempt Executed → Retried → Retried
after_attempt pauses broke rest = record {
  outcome = rest.outcome;
  attempts = suc rest.attempts;
  pauses = pauses ++ rest.pauses;
}
after_attempt pauses (answered x) rest = record {
  outcome = answered x;
  attempts = 1;
  pauses = pauses;
}
after_attempt pauses (refused e) rest = record {
  outcome = refused e;
  attempts = 1;
  pauses = pauses;
}

-- `for attempt in range(max_retries + 1)`, by the attempts that are left.
unfoldable pub retry_loop : RetryStrategy → (ℕ → Attempt Executed) → ℕ → ℕ → Retried
unfolding delay_for
retry_loop r try attempt zero = record { outcome = refused gave_up; attempts = 0; pauses = [] }
retry_loop r try attempt (suc left) =
    after_attempt (pause_before r attempt) (try attempt) (retry_loop r try (suc attempt) left)

abbrev pub no_attempt : CollectorError → Retried
no_attempt e = record { outcome = refused e; attempts = 0; pauses = [] }

-- The guards in front of the loop.
unfoldable pub refusal : Bool → Device → Probes → ℕ → Option CollectorError
refusal installed d probes timeout =
    if nat_eq timeout 0
    then some bad_timeout
    else if not (mem d.auth_type (txt "private_key" ∷ txt "password" ∷ []))
    then some (collector_error "unsupported auth_type for SSH collector" "warning" none)
    else if any is_disallowed probes
    then some not_allowed
    else if not installed
    then some (collector_error "paramiko is not installed" "warning" none)
    else none

abbrev pub unless_refused : Option CollectorError → Retried → Retried
unless_refused none run = run
unless_refused (some e) run = no_attempt e

-- `ParamikoSSHCollector.execute_commands`
unfoldable pub execute_commands :
    RetryStrategy → Bool → Host → Connect → Device → Probes → ℕ → Retried
execute_commands r installed host connect d probes timeout =
    unless_refused (refusal installed d probes timeout)
      (retry_loop r (connect_and_execute host connect d probes timeout) 0 (suc r.max_retries))

abbrev pub quick_probes : Probes
quick_probes = (txt "hostname", txt "hostname") ∷ (txt "uname", txt "uname -a") ∷ []

abbrev pub outputs_of : Attempt Executed → Attempt Outputs
outputs_of (answered x) = answered x.results
outputs_of (refused e) = refused e
outputs_of broke = broke

-- `quick_verify`
unfoldable pub quick_verify : RetryStrategy → Bool → Host → Connect → Device → ℕ → Attempt Outputs
unfolding execute_commands
quick_verify r installed host connect d timeout =
    outputs_of (execute_commands r installed host connect d quick_probes timeout).outcome
