-- ===== src/Tests/Rescue.antt =====
-- Runs of rescue commands.
use chatgpt_web_agent.Base.{
  ℕ, suc, ◌-◌, ◌≤◌, String, Bool, true, false, Option, none, some, List, [], ◌∷◌, ◌++◌, ◌||◌,
  length, nat_eq, ◌==◌, starts_with, is_some, ◌≡◌, ◌⊎◌, refl,
}
use chatgpt_web_agent.Base.Table.{Table, any, get, take}
use chatgpt_web_agent.Json.{Fields, str, obj, field, end, lookup_field, code_units}
use chatgpt_web_agent.Tools.{Units, Paths, is_inside, workdir_or_here}
use chatgpt_web_agent.RescueExec.{
  Config, World, Job, started, begin_call, is_safe, unexpected_args, begin_args, prepare,
  begin_prepared, parse_timeout, parse_env, parse_entries, spread, build_minimal_environment,
  inherit,
}
use chatgpt_web_agent.RescueExec.Run.{
  Sent, Setup, Run, Event, output, timeout_fires, abort_fires, kill_fires, closes, start, append,
  step, steps, sigterm,
}
use chatgpt_web_agent.RescueExec.Output.{all_output, steps-collected}
use chatgpt_web_agent.RescueExec.Settling.{is_kill, signalled, steps-settled, timeout-kills}
use chatgpt_web_agent.RescueExec.Verdict.{verdict, steps-verdict}
use chatgpt_web_agent.RescueExec.Environment.{Explicit, Inherited}
use chatgpt_web_agent.RescueExec.Calls.{begin_call-env}
use chatgpt_web_agent.RescueExec.Turns.{Calls, here, next, call, after_call, calls-Reachable}

abbrev sleeper : Setup
sleeper = record { pid = some 4242; max_output_chars = 5; timeout_seconds = 15; cwd = "/work" }

abbrev printed : List Event
printed =
    output (code_units "abc")
    ∷ timeout_fires true
    ∷ output (code_units "defg")
    ∷ closes none (some "SIGTERM") 15000
    ∷ []

steps-collected_example :
    ((steps sleeper printed (start true)).raw_output ≡ take 5 (all_output printed))
    × ((steps sleeper printed (start true)).omitted_chars ≡ length (all_output printed) - 5)
steps-collected_example = steps-collected sleeper true printed

abbrev closed_run : Run
closed_run = step sleeper (closes (some 0) none 10) (steps sleeper printed (start true))

steps-settled_example :
    (is_some closed_run.outcome ≡ true)
    × ((steps sleeper (abort_fires true ∷ []) closed_run).outcome ≡ closed_run.outcome)
    × ((steps sleeper (abort_fires true ∷ []) closed_run).timeout_timer ≡ false)
    × ((steps sleeper (abort_fires true ∷ []) closed_run).abort_listener ≡ false)
    × (((steps sleeper (abort_fires true ∷ []) closed_run).kill_timers ≡ [])
        ⊎ (((steps sleeper (abort_fires true ∷ []) closed_run).timed_out ≡ true)
            × ((steps sleeper (abort_fires true ∷ []) closed_run).aborted ≡ true)))
steps-settled_example =
    steps-settled sleeper true printed (abort_fires true ∷ []) (closes (some 0) none 10) tt

abbrev waiting : Run
waiting = steps sleeper (output (code_units "a") ∷ []) (start false)

abbrev late_events : List Event
late_events = output (code_units "b") ∷ abort_fires true ∷ []

timeout-kills_example :
    (newer : List Sent) × ((step sleeper
        (kill_fires waiting.made false)
        (steps sleeper late_events (step sleeper (timeout_fires true) waiting))).sent
      ≡ newer ++ (signalled sigterm true ∷ waiting.sent))
    × (((step sleeper
            (kill_fires waiting.made false)
            (steps sleeper late_events (step sleeper (timeout_fires true) waiting))).settled
          || any is_kill newer)
        ≡ true)
unfolding steps step start append
timeout-kills_example = timeout-kills sleeper late_events true false 4241 waiting refl refl

abbrev plain_paths : Paths
plain_paths = record {
  resolve = λ root p. root;
  relative = λ root p. "";
  is_absolute = starts_with "/";
}

abbrev service : World
service = record {
  path = plain_paths;
  process_env = ("PATH", some "/bin") ∷ ("SECRET", some "x") ∷ [];
  aborted = false;
}

abbrev settings : Config
settings = record { workspace_dir = "/work"; workspace_only = true; max_output_chars = 100 }

abbrev list_args : Fields
list_args = field "command" (str "ls") (field "env" (obj (field "A" (str "1") end)) end)

abbrev list_job : Job
list_job = record {
  command = "ls";
  cwd = "/work";
  env = ("PATH", "/bin") ∷ ("A", "1") ∷ [];
  timeout_seconds = 15;
}

begin_list : (begin_call settings service "rescue_exec" list_args false).0 ≡ started list_job
unfolding begin_call begin_args begin_prepared prepare unexpected_args lookup_field
    chatgpt_web_agent.Base.is_blank chatgpt_web_agent.Tools.resolve_tool_workdir is_inside
    parse_timeout parse_env parse_entries spread chatgpt_web_agent.Base.Table.put
    build_minimal_environment inherit is_safe chatgpt_web_agent.Base.Table.any starts_with
begin_list = refl

begin_call-env_example :
    Explicit "PATH" "/bin" (lookup_field "env" list_args)
    ⊎ ((is_safe "PATH" ≡ true) × Inherited "PATH" "/bin" service.process_env)
unfolding get
begin_call-env_example =
    begin_call-env settings service "rescue_exec" list_args false list_job "PATH" "/bin" begin_list
      refl

abbrev idle : Calls
idle = record { running = false; live = [] }

abbrev one_call : Calls
one_call = after_call (begin_call settings service "rescue_exec" list_args false) idle

calls-Reachable_example :
    (length one_call.live ≤ 1) × (one_call.running ≡ nat_eq (length one_call.live) 1)
calls-Reachable_example =
    calls-Reachable settings one_call (next here (call idle service "rescue_exec" list_args))

steps-verdict_example :
    (steps sleeper printed (start true)).outcome ≡ verdict sleeper true [] printed
steps-verdict_example = steps-verdict sleeper true printed
