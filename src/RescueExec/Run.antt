-- ===== src/RescueExec/Run.antt =====
-- `#execute` of src/backend/rescue-exec.ts: the events of one command after it is spawned, as steps
-- of a state. An event of a timer that was cleared, or of a listener that was removed, does nothing.
use chatgpt_web_agent.Base.{
  ℕ, zero, suc, ◌+◌, ◌-◌, String, ◌<>◌, Bool, true, false, not, Option, none, some, List, [], ◌∷◌,
  ◌++◌, length, ltb, nat_eq, is_some, if◌then◌else◌,
}
use chatgpt_web_agent.Base.Table.{take, any, select}
use chatgpt_web_agent.Json.{code_units, decimal}
use chatgpt_web_agent.Tools.{Units, CallToolResult, text, tool_error}

pub data ExitReason : Type 0 where
  exit signal overall_timeout aborted : ExitReason

-- `RescueExitDetails`; `status` and the marks of a failure follow from `exit_reason`.
pub record RescueExitDetails : Type 0 where
  pub completed : Bool
  pub exit_code : Option ℕ
  pub exit_signal : Option String
  pub exit_reason : ExitReason
  pub duration_ms : ℕ
  pub aggregated : Units
  pub cwd : String

abbrev pub Outcome : Type 0
Outcome = CallToolResult RescueExitDetails

pub data Signal : Type 0 where
  sigterm sigkill : Signal

-- A signal sent to the process group, or to the direct child where the group is not there.
pub data Sent : Type 0 where
  to_group to_child : Signal → Sent

-- What one execution is given: `pid` is there when the command was spawned.
pub record Setup : Type 0 where
  pub pid : Option ℕ
  pub max_output_chars : ℕ
  pub timeout_seconds : ℕ
  pub cwd : String

pub record Run : Type 0 where
  pub raw_output : Units
  pub omitted_chars : ℕ
  pub timed_out : Bool
  pub aborted : Bool
  pub settled : Bool
  pub timeout_timer : Bool  -- whether it is still to fire
  pub abort_listener : Bool
  pub kill_timer : Option ℕ  -- the timer that the variable holds
  pub kill_timers : List ℕ  -- the kill timers that are still to fire
  pub made : ℕ  -- the number of kill timers made
  pub sent : List Sent
  pub outcome : Option Outcome

-- The `Bool` of a timer or an abort says whether `process.kill` finds the process group.
pub data Event : Type 0 where
  output : Units → Event
  timeout_fires abort_fires : Bool → Event
  kill_fires : ℕ → Bool → Event
  fails : String → Event
  closes : Option ℕ → Option String → ℕ → Event

-- `with_signal`: whether the call has an abort signal
unfoldable pub start : Bool → Run
start with_signal = record {
  raw_output = [];
  omitted_chars = 0;
  timed_out = false;
  aborted = false;
  settled = false;
  timeout_timer = true;
  abort_listener = with_signal;
  kill_timer = none;
  kill_timers = [];
  made = 0;
  sent = [];
  outcome = none;
}

-- `terminateProcessGroup`
unfoldable pub terminate_process_group : Option ℕ → Signal → Bool → List Sent
terminate_process_group none s found = []
terminate_process_group (some zero) s found = []
terminate_process_group (some (suc _)) s true = to_group s ∷ []
terminate_process_group (some (suc _)) s false = to_child s ∷ []

-- `append`
unfoldable pub append : ℕ → Units → Run → Run
append max_output_chars chunk r =
    let remaining = max_output_chars - length r.raw_output in
    record r {
      raw_output = if ltb 0 remaining then r.raw_output ++ take remaining chunk else r.raw_output;
      omitted_chars = r.omitted_chars + (length chunk - remaining);
    }

-- `collectedOutput`
unfoldable pub collected_output : Run → Units
collected_output r =
    if ltb 0 r.omitted_chars
    then r.raw_output
      ++ code_units (
          "\n\n[chatgpt-web-agent rescue_exec truncated "
          <> decimal r.omitted_chars
          <> " characters]")
    else r.raw_output

-- `hardKillSoon`
unfoldable pub hard_kill_soon : Run → Run
hard_kill_soon r = record r {
  kill_timer = some r.made;
  kill_timers = r.made ∷ r.kill_timers;
  made = r.made + 1;
}

abbrev clear_kill_timer : Option ℕ → List ℕ → List ℕ
clear_kill_timer none timers = timers
clear_kill_timer (some id) timers = select (λ t. not (nat_eq t id)) timers

-- `cleanup`
unfoldable pub cleanup : Run → Run
cleanup r = record r {
  timeout_timer = false;
  kill_timers = clear_kill_timer r.kill_timer r.kill_timers;
  abort_listener = false;
}

-- `settled = true; cleanup(); resolve(result)`
unfoldable pub resolve : Outcome → Run → Run
resolve result r = cleanup (record r { settled = true; outcome = some result })

abbrev after_output : Units → String → Units
after_output [] message = code_units message
after_output raw message = raw ++ code_units ("\n\n" <> message)

abbrev signal_note : Units → Option String → Units
signal_note raw none = raw
signal_note raw (some s) = after_output raw ("(Command terminated by signal " <> s <> ")")

-- `formatCompletedOutput`
unfoldable pub format_completed_output : Units → Option ℕ → Option String → Units
format_completed_output raw (some (suc n)) sig =
    after_output raw ("(Command exited with code " <> decimal (suc n) <> ")")
format_completed_output raw code sig = signal_note raw sig

-- `resultWithDetails`
unfoldable pub result_with_details : Units → RescueExitDetails → Outcome
result_with_details t details = record {
  content = text t ∷ [];
  is_error = false;
  structured_content = some details;
}

abbrev details :
    Setup → Bool → ExitReason → Option ℕ → Option String → ℕ → Units → RescueExitDetails
details setup completed reason code sig duration aggregated = record {
  completed = completed;
  exit_code = code;
  exit_signal = sig;
  exit_reason = reason;
  duration_ms = duration;
  aggregated = aggregated;
  cwd = setup.cwd;
}

abbrev timeout_message : ℕ → String
timeout_message seconds = "Command timed out after " <> decimal seconds <> " seconds."

-- The result of a command that has closed.
unfoldable pub close_result : Setup → Option ℕ → Option String → ℕ → Run → Outcome
close_result setup code sig duration r =
    let raw = collected_output r in
    let aggregated = format_completed_output raw code sig in
    if r.timed_out
    then result_with_details (after_output raw (timeout_message setup.timeout_seconds))
        (details setup false overall_timeout code sig duration raw)
    else if r.aborted
    then result_with_details (after_output raw "Command aborted.")
        (details setup false ExitReason.aborted code sig duration raw)
    else result_with_details aggregated
        (details setup true (if is_some sig then signal else exit) code sig duration aggregated)

-- One event of the child, of a timer or of the abort signal.
unfoldable pub step : Setup → Event → Run → Run
step setup (output chunk) r = append setup.max_output_chars chunk r
step setup (timeout_fires found) r =
    if r.timeout_timer
    then hard_kill_soon (record r {
      timed_out = true;
      timeout_timer = false;
      sent = terminate_process_group setup.pid sigterm found ++ r.sent;
    })
    else r
step setup (abort_fires found) r =
    if r.abort_listener
    then hard_kill_soon (record r {
      aborted = true;
      abort_listener = false;
      sent = terminate_process_group setup.pid sigterm found ++ r.sent;
    })
    else r
step setup (kill_fires id found) r =
    if any (nat_eq id) r.kill_timers
    then record r {
      kill_timers = select (λ t. not (nat_eq t id)) r.kill_timers;
      sent = terminate_process_group setup.pid sigkill found ++ r.sent;
    }
    else r
step setup (fails message) r =
    if r.settled then r else resolve (tool_error (code_units ("rescue_exec failed: " <> message))) r
step setup (closes code sig duration) r =
    if r.settled then r else resolve (close_result setup code sig duration r) r

-- The events in their order.
unfoldable pub steps : Setup → List Event → Run → Run
steps setup [] r = r
steps setup (e ∷ es) r = steps setup es (step setup e r)
