-- ===== src/Workflows/Lease.antt =====
-- The life of a run (src/workflows.ts, `claim`, `leaseDuration`, `heartbeat`, `finish`).
use chatgpt_web_agent.Base.{
  ℕ, ◌+◌, String, not, ◌&&◌, ◌||◌, Option, none, some, Result, ok, err, ◌>>=◌, ◌==◌, ltb, truthy,
  opt_eq, get_or_else, if◌then◌else◌,
}
use chatgpt_web_agent.Base.Table.{get, put}
use chatgpt_web_agent.State.{Env, Db, Workflow, WorkflowRun, WorkflowState, RunState}
use chatgpt_web_agent.Workflows.Tasks.{task_of, save}
use chatgpt_web_agent.Workflows.Sync.{is_queued}
use chatgpt_web_agent.Workflows.Dispatch.{actor}

pub record ClaimInput : Type 0 where
  pub task : String
  pub dispatch_id : String
  pub runner : String
  pub lease_ms : Option ℕ

pub data ClaimResult : Type 0 where
  refused : String → ClaimResult
  claimed :
      (dispatch_id lease_token : String) → (lease_until : ℕ) → (root_id : String) → ClaimResult

unfoldable pub lease_duration : Option ℕ → Result ℕ
lease_duration value =
    let ms = get_or_else value 7_200_000 in
    if ltb ms 60_000 || ltb 86_400_000 ms then err "invalid_lease_duration" else ok ms

abbrev pub claimed_run : Env → String → String → ℕ → WorkflowRun → WorkflowRun
claimed_run env token runner ms run = record run {
  state = RunState.running;
  runner = some runner;
  lease_token = some token;
  started_at = some env.now;
  last_heartbeat = some env.now;
  lease_until = some (env.now + ms);
}

abbrev pub claim_queued :
    Env → String → ClaimInput → Workflow → WorkflowRun → Db → Result (ClaimResult × Db)
claim_queued env token i task run db = do
  ms ← lease_duration i.lease_ms
  let db' = save env (record task { state = WorkflowState.running }) db
  ok (
    claimed run.id token (env.now + ms) run.root_id,
    record db' { runs = put run.id (claimed_run env token i.runner ms run) db'.runs },
  )

abbrev pub claim_run :
    Env → String → ClaimInput → Workflow → WorkflowRun → Db → Result (ClaimResult × Db)
claim_run env token i task run db =
    if not (run.task == task.key) || not (opt_eq task.current_run (some run.id))
    then ok (refused "not_current_dispatch", db)
    else if is_queued run.state
    then claim_queued env token i task run db
    else ok (refused "already_claimed", db)

abbrev pub claim_found :
    Env → String → ClaimInput → Workflow → Option WorkflowRun → Db → Result (ClaimResult × Db)
claim_found env token i task none db = ok (refused "not_current_dispatch", db)
claim_found env token i task (some run) db = claim_run env token i task run db

-- `token` is the random lease token.
unfoldable pub claim : Env → String → ClaimInput → Db → Result (ClaimResult × Db)
claim env token i db = do
  task ← task_of i.task db
  if not task.enabled
      then ok (refused "paused", db)
      else claim_found env token i task (get i.dispatch_id db.runs) db

unfoldable pub heartbeat : Env → String → String → Option ℕ → Db → Result (ℕ × Db)
heartbeat env task lease_token lease_ms db = do
  run ← actor env task lease_token db
  ms ← lease_duration lease_ms
  ok (
    env.now + ms,
    record db {
      runs =
          put run.id
            (record run { last_heartbeat = some env.now; lease_until = some (env.now + ms) })
            db.runs;
    },
  )

pub data Outcome : Type 0 where
  idle completed needs_input : Outcome

abbrev pub outcome_state : Outcome → WorkflowState
outcome_state Outcome.idle = WorkflowState.idle
outcome_state Outcome.completed = WorkflowState.completed
outcome_state Outcome.needs_input = WorkflowState.needs_input

abbrev outcome_name : Outcome → String
outcome_name Outcome.idle = "idle"
outcome_name Outcome.completed = "completed"
outcome_name Outcome.needs_input = "needs_input"

pub record FinishInput : Type 0 where
  pub task : String
  pub lease_token : String
  pub outcome : Outcome
  pub checkpoint : Option String
  pub summary : Option String

-- A checkpoint that differs from the task's own is stored and counts one revision.
unfoldable pub with_checkpoint : Option String → Workflow → Workflow
with_checkpoint checkpoint task =
    if truthy checkpoint && not (opt_eq checkpoint task.checkpoint)
    then record task { checkpoint = checkpoint; revision = task.revision + 1 }
    else task

abbrev pub finished_task : FinishInput → Workflow → Workflow
finished_task i task = record (with_checkpoint i.checkpoint task) {
  summary = i.summary;
  state = outcome_state i.outcome;
  current_run = none;
}

abbrev pub finished_run : Env → Outcome → WorkflowRun → WorkflowRun
finished_run env outcome run = record run {
  state = RunState.finished;
  outcome = some (outcome_name outcome);
  finished_at = some env.now;
  lease_token = none;
}

unfoldable pub finish : Env → FinishInput → Db → Result ((WorkflowState × ℕ) × Db)
finish env i db = do
  run ← actor env i.task i.lease_token db
  task ← task_of i.task db
  let task' = finished_task i task
  ok (
    (task'.state, task'.revision),
    save env task' (record db { runs = put run.id (finished_run env i.outcome run) db.runs }),
  )
