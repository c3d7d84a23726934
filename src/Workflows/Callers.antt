-- ===== src/Workflows/Callers.antt =====
-- Who asks for a continuation: a task with a lease, or a producer outside of the tasks
-- (src/workflows.ts, `dispatch`, `external`).
use chatgpt_web_agent.Base.{
  String, ◌<>◌, slice_to, not, Option, none, some, Result, ok, ◌>>=◌, ◌==◌, if◌then◌else◌,
}
use chatgpt_web_agent.State.{Env, Db, WorkflowRun, DispatchResult}
use chatgpt_web_agent.Workflows.Tasks.{task_of}
use chatgpt_web_agent.Workflows.Dispatch.{EnqueueInput, Fresh, actor, enqueue, refusal_result}

pub record DispatchInput : Type 0 where
  pub target : String
  pub dedup_key : String
  pub reason : String
  pub source_task : String
  pub lease_token : String
  pub summary : Option String
  pub state_ref : Option String

abbrev from_run : DispatchInput → WorkflowRun → EnqueueInput
from_run i source = record {
  target = i.target;
  dedup_key = i.dedup_key;
  reason = i.reason;
  actor = "run:" <> source.id;
  root_id = source.root_id;
  source_task = some source.task;
  summary = i.summary;
  state_ref = i.state_ref;
}

unfoldable pub dispatch : Env → Fresh → DispatchInput → Db → Result (DispatchResult × Db)
dispatch env fresh i db = do
  source ← actor env i.source_task i.lease_token db
  task ← task_of i.source_task db
  if not task.enabled
      then ok (refusal_result "source_paused", db)
      else if i.target == i.source_task
      then ok (refusal_result "direct_self_dispatch", db)
      else enqueue env fresh (from_run i source) db

pub record ExternalInput : Type 0 where
  pub target : String
  pub producer : String
  pub dedup_key : String
  pub reason : String
  pub summary : Option String
  pub state_ref : Option String

abbrev pub from_producer : Env → ExternalInput → EnqueueInput
from_producer env i = record {
  target = i.target;
  dedup_key = i.dedup_key;
  reason = i.reason;
  actor = "external:" <> i.producer;
  root_id = "root_" <> slice_to 32 (env.hash (i.producer <> "\n" <> i.dedup_key));
  source_task = none;
  summary = i.summary;
  state_ref = i.state_ref;
}

unfoldable pub external : Env → Fresh → ExternalInput → Db → Result (DispatchResult × Db)
external env fresh i db = enqueue env fresh (from_producer env i) db
