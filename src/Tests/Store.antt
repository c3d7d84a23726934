-- ===== src/Tests/Store.antt =====
-- Runs of the transactions and of the process watcher.
use chatgpt_web_agent.Base.{
  ℕ, ◌+◌, String, false, none, some, [], ◌∷◌, ◌≡◌, refl, arith, err, eq_iff,
}
use chatgpt_web_agent.Base.Table.{get, put, all, select}
use chatgpt_web_agent.Json.{Fields, field, end, str, num, lookup_field}
use chatgpt_web_agent.ExecRuntime.{
  ToolName, ExecRuntimeRequest, execute_once, execute_found, prune_memo, drop_expired, drop_excess,
  size, Memo, joined, rejected, complete, fingerprint_request,
}
use chatgpt_web_agent.ExecRuntime.Once.{at_once, requested, completed, execute_once-once}
use chatgpt_web_agent.Base.{false, ok, ◌==◌, if◌then◌else◌}
use chatgpt_web_agent.State.{Db, ProcessObservation, ProcessStatus, ProcessWait, WaitState}
use chatgpt_web_agent.StateDb.{
  Connection, Commands, Body, IsTransactional, opened, atomic, Outcome, atomic-Outcome, IsInner,
}
use chatgpt_web_agent.ProcessWaits.{
  Inspection, ToolResult, inspect_process_result, inspect_fields, inspect_ended, Driver, tick,
  tick_each, tick_one, due_waits, sort_checks, insert_check, resume_if_terminal, after_read,
  note_inspection, recheck, recheck_found, check_delay,
}
use chatgpt_web_agent.ProcessWaits.Checks.{IsReceipt, terminal-IsReceipt, tick-IsFenced}
use chatgpt_web_agent.Workflows.Fence.{IsFenced}
use chatgpt_web_agent.Tests.Data.{env, env_at, idle_db}

-- A store that is a number, with the number that `ROLLBACK` restores; no `COMMIT` succeeds.
abbrev commands : Commands (ℕ × ℕ)
commands = record {
  begin = λ s. (ok tt, (s.0, s.0));
  commit = λ s. (err "SQLITE_BUSY", s);
  rollback = λ s. (ok tt, (s.1, s.1));
}

abbrev rows : ℕ × ℕ → ℕ
rows s = s.0

abbrev saved : ℕ × ℕ → ℕ
saved s = s.1

transactional : IsTransactional commands rows saved
transactional = record {
  begin_rows = λ s. refl;
  begin_saved = λ s _. refl;
  commit_rows = λ s e. absurd (cc e);
  commit_saved = λ s e _. refl;
  rollback_rows = λ s. refl;
}

-- It writes and returns.
abbrev writing : Body (ℕ × ℕ) ℕ
writing c = (ok 1, record c { sqlite = (c.sqlite.0 + 1, c.sqlite.1) })

writing-IsInner : IsInner {A = ℕ} commands rows saved writing
writing-IsInner n c h = (h, refl)

abbrev connection : Connection (ℕ × ℕ)
connection = record { sqlite = (5, 0); depth = 0 }

abbrev inside : Connection (ℕ × ℕ)
inside = record { sqlite = (5, 5); depth = 1 }

atomic-Outcome_example :
    Outcome commands rows saved connection
      (writing (opened commands connection))
      (atomic commands writing connection)
atomic-Outcome_example =
    atomic-Outcome commands rows saved writing connection transactional writing-IsInner refl

abbrev receipt : Fields
receipt = field "sessionId" (str "p") (field "status" (str "failed") (field "exitCode" (num 3) end))

abbrev result : ToolResult
result = record { is_error = false; structured = some receipt }

abbrev observation : ProcessObservation
observation = record {
  status = ProcessStatus.failed;
  exit_code = some 3;
  exit_signal = none;
  exit_reason = none;
  timed_out = false;
  no_output_timed_out = false;
}

terminal-IsReceipt_example : IsReceipt result "p" observation
unfolding inspect_process_result inspect_fields inspect_ended lookup_field
terminal-IsReceipt_example = terminal-IsReceipt result "p" observation refl

abbrev wait : ProcessWait
wait = record {
  id = "p";
  task = "a";
  session_id = "p";
  state = WaitState.watching;
  created_at = 1;
  next_check_at = 1;
  failures = 7;
  last_error = none;
  last_observed_at = none;
  observation = none;
  dispatch_id = none;
  event_id = none;
  source_run_id = none;
}

abbrev watched_db : Db
watched_db = record idle_db { process_waits = ("p", wait) ∷ [] }

abbrev key_a : String
key_a = "a"

watched_db-IsFenced : IsFenced watched_db.workflows
unfolding get
watched_db-IsFenced = record {
  is_keyed = record { nodup = (refl, tt); keyed = λ k t e. ground (arith, eq_iff key_a k) };
  fence = λ j k a b ea eb t s oa ob. ground (arith, eq_iff key_a j, eq_iff key_a k);
}

abbrev driver : Driver
driver = record {
  inspection = λ w. Inspection.running;
  later = λ w. env_at 1500;
  fresh = λ w. record { run = "1"; event = "2" };
  meanwhile = λ w db. db;
}

abbrev ticked_db : Db
ticked_db = record watched_db {
  process_waits =
      ("p", record wait { failures = 0; last_observed_at = some 1500; next_check_at = 3500 }) ∷ [];
}

tick-IsFenced_example : IsFenced ticked_db.workflows
unfolding tick tick_each tick_one due_waits sort_checks select all insert_check resume_if_terminal
    get after_read note_inspection recheck recheck_found put check_delay
tick-IsFenced_example =
    tick-IsFenced driver (λ w db h. h) env watched_db ticked_db watched_db-IsFenced refl

abbrev exec_request : ExecRuntimeRequest
exec_request = record { request_id = "1"; call_id = "c"; tool = ToolName.exec; args = end }

abbrev other_request : ExecRuntimeRequest
other_request = record { request_id = "1"; call_id = "d"; tool = ToolName.process; args = end }

abbrev started_memo : Memo
started_memo = (execute_once 0 7 exec_request []).1

abbrev third_request : ExecRuntimeRequest
third_request = record exec_request { request_id = "2" }

-- An hour later, after another request has come and completed, and with another payload.
execute_once-once_example :
    (execute_once 3_600_000 9 other_request
      (complete 6 "2" (execute_once 5 8 third_request started_memo).1)).0
    ≡ (if fingerprint_request exec_request == fingerprint_request other_request
        then joined 7
        else rejected)
unfolding execute_once execute_found prune_memo drop_expired drop_excess size get
execute_once-once_example =
    execute_once-once 0 3_600_000 7 9 7 exec_request other_request [] _ refl
      (completed 6 "2" refl (requested 5 8 third_request at_once)) refl
