-- ===== src/Tests/Workflows.antt =====
-- Runs of the coordinator's operations.
use chatgpt_web_agent.Base.{
  String, true, false, none, some, [], ◌∷◌, ◌≡◌, refl, ok, err, arith, eq_iff, is_blank, js_length,
  slice_to,
}
use chatgpt_web_agent.Base.Table.{
  get, put, all, sort_by_key, insert_by_key, values, any, select, recent,
}
use chatgpt_web_agent.Json.{
  stringify, canonical_json, code_units, decimal, insert_field, lookup_field, print_fields, quote,
  units_le,
}
use chatgpt_web_agent.State.{Db, Role, WorkflowState}
use chatgpt_web_agent.Workflows.Tasks.{
  register, register_over, save, task_of, deref, workspace_busy,
}
use chatgpt_web_agent.Workflows.Waits.{wait_process, wait_unless, leave_task, start_wait, wait_id}
use chatgpt_web_agent.Workflows.Steps.{start, next, registered, waited}
use chatgpt_web_agent.Workflows.Fence.Steps.{workspace-Reachable}
use chatgpt_web_agent.Workflows.Fence.{IsKeyed}
use chatgpt_web_agent.Workflows.Leases.{is_claimed, claim-once, finish-spends_lease}
use chatgpt_web_agent.Workflows.Requests.{enqueue-twice, enqueue-refused}
use chatgpt_web_agent.Workflows.Certainty.{sync_task-certain, KeepsRuns}
use chatgpt_web_agent.Workflows.Resumption.{resume_process_wait-outcome, Resumed}
use chatgpt_web_agent.Workflows.Sync.{
  synchronize, sync_each, sync_task, sync_found, settle_run, visit_key,
}
use chatgpt_web_agent.Workflows.Dispatch.{
  Fresh, EnqueueInput, request, request_key, answer, admit, refusal, launch_on, launch, chosen_for,
  enqueue, actor,
}
use chatgpt_web_agent.Workflows.Callers.{external}
use chatgpt_web_agent.Workflows.Tasks.{choose}
use chatgpt_web_agent.Workflows.Lease.{
  ClaimInput, ClaimResult, claim, lease_duration, FinishInput, Outcome, finish, with_checkpoint,
}
use chatgpt_web_agent.Workflows.Resuming.{
  resume_process_wait, resume_task, after_request, end_reason, observation_summary,
}
use chatgpt_web_agent.Events.{
  enqueue_continue, enqueue_each, enqueue_for, enqueue_row, validate_data, event_body, data_json,
  body_data, active_subscriptions, outbox_summary,
}
use chatgpt_web_agent.State.{
  WorkflowRun, RunState, ProcessWait, WaitState, ProcessObservation, ProcessStatus, DispatchResult,
}
use chatgpt_web_agent.Tests.Data.{db_after, env, env_at, task, queued_task, run, queued_db, idle_db}

abbrev key_a : String
key_a = "a"

abbrev claim_input : ClaimInput
claim_input = record { task = "a"; dispatch_id = "r"; runner = "x"; lease_ms = none }

own_id : (r : WorkflowRun) → get "r" queued_db.runs ≡ some r → r.id ≡ "r"
unfolding get
own_id r e = cc

claim-once_example : is_claimed (ClaimResult.refused "already_claimed") ≡ false
unfolding claim lease_duration task_of save get put
claim-once_example =
    claim-once env (env_at 2000) "token" "other" claim_input claim_input queued_db _ _ _ _ own_id
      refl refl refl refl

abbrev running_run : WorkflowRun
running_run = record run {
  state = RunState.running;
  lease_token = some "token";
  lease_until = some 5000;
}

abbrev running_db : Db
running_db = record queued_db {
  workflows = ("a", record queued_task { state = WorkflowState.running }) ∷ [];
  runs = ("r", running_run) ∷ [];
}

running_db-IsKeyed : IsKeyed running_db.workflows
unfolding get
running_db-IsKeyed = record { nodup = (refl, tt); keyed = λ k t e. ground (arith, eq_iff key_a k) }

abbrev finish_input : FinishInput
finish_input = record {
  task = "a";
  lease_token = "token";
  outcome = Outcome.completed;
  checkpoint = some "c";
  summary = none;
}

abbrev fresh : Fresh
fresh = record { run = "1"; event = "2" }

abbrev request_input : EnqueueInput
request_input = record {
  target = "a";
  dedup_key = "k";
  reason = "go";
  actor = "external:x";
  root_id = "root";
  source_task = none;
  summary = none;
  state_ref = none;
}

workspace-Reachable_example : key_a ≡ key_a
unfolding register register_over save get put all sort_by_key insert_by_key values any task_of
    workspace_busy wait_process wait_unless leave_task start_wait wait_id is_blank js_length
    slice_to
workspace-Reachable_example =
    workspace-Reachable _ "a" "a" _ _
      (next
        (next start (
          registered env
            (record {
              key = "a";
              topic = "t";
              role = Role.worker;
              workspace = some "/w";
              chat_ref = none;
            })
            refl))
        (waited env
          (record {
            task = "a";
            session_id = "p";
            lease_token = none;
            checkpoint = none;
            summary = none;
          })
          refl))
      refl refl refl refl refl refl

abbrev finished_db : Db
finished_db = db_after (finish env finish_input running_db)

finish-spends_lease_example :
    (actor (env_at 2000) "a" "token" finished_db ≡ err "invalid_run_lease")
    × (finished_db.outbox ≡ running_db.outbox)
unfolding finish actor task_of deref save get put with_checkpoint
finish-spends_lease_example =
    finish-spends_lease env (env_at 2000) finish_input "token" running_db _ finished_db
      running_db-IsKeyed refl

abbrev requested : DispatchResult
requested = record {
  accepted = true;
  reason = "queued";
  dispatch_id = some "run_1";
  event_id = some "evt_2";
  root_id = some "root";
  warnings = [];
}

abbrev requested_db : Db
requested_db = db_after (enqueue env fresh request_input idle_db)

enqueue-twice_example :
    enqueue (env_at 2000) fresh request_input requested_db
    ≡ ok (record requested { reason = "duplicate_request" }, synchronize (env_at 2000) requested_db)
unfolding request request_key answer admit refusal get task_of workspace_busy any all launch_on
    chosen_for choose select active_subscriptions launch enqueue_continue validate_data js_length
    stringify event_body data_json insert_by_key put sort_by_key values body_data enqueue_each
    enqueue_for enqueue_row canonical_json code_units decimal insert_field lookup_field print_fields
    quote units_le visit_key save enqueue synchronize sync_each sync_task sync_found deref
    settle_run outbox_summary recent
enqueue-twice_example =
    enqueue-twice env (env_at 2000) fresh fresh request_input request_input idle_db requested_db
      requested_db requested refl refl refl refl

abbrev refused_db : Db
refused_db = db_after (enqueue env fresh request_input queued_db)

enqueue-refused_example : refused_db ≡ synchronize env queued_db
unfolding enqueue request request_key answer admit refusal synchronize get sync_each all sync_task
    sync_found deref settle_run outbox_summary recent any task_of
enqueue-refused_example = enqueue-refused env fresh request_input queued_db _ refused_db refl refl

sync_task-certain_example : KeepsRuns queued_db (sync_task env queued_task queued_db)
unfolding deref get outbox_summary any recent select values
sync_task-certain_example = sync_task-certain env queued_task run queued_db refl refl

abbrev observation : ProcessObservation
observation = record {
  status = ProcessStatus.completed;
  exit_code = some 0;
  exit_signal = none;
  exit_reason = none;
  timed_out = false;
  no_output_timed_out = false;
}

abbrev wait : ProcessWait
wait = record {
  id = "p";
  task = "a";
  session_id = "s1";
  state = WaitState.terminal;
  created_at = 1;
  next_check_at = 1;
  failures = 0;
  last_error = none;
  last_observed_at = none;
  observation = some observation;
  dispatch_id = none;
  event_id = none;
  source_run_id = none;
}

abbrev waiting_db : Db
waiting_db = record idle_db {
  workflows = ("a", record task { state = WorkflowState.waiting; waiting_for = some "p" }) ∷ [];
  process_waits = ("p", wait) ∷ [];
}

abbrev resumed_db : Db
resumed_db = db_after (resume_process_wait env fresh "p" waiting_db)

resume_process_wait-outcome_example : Resumed env "p" waiting_db (requested, resumed_db)
unfolding resume_process_wait resume_task external enqueue request request_key answer admit refusal
    synchronize get task_of workspace_busy any all launch_on chosen_for choose select
    active_subscriptions launch enqueue_continue validate_data js_length stringify event_body
    data_json insert_by_key put sort_by_key values body_data enqueue_each enqueue_for enqueue_row
    canonical_json code_units decimal insert_field lookup_field print_fields quote units_le
    visit_key save sync_each sync_task sync_found settle_run outbox_summary recent after_request
    end_reason observation_summary deref slice_to
resume_process_wait-outcome_example =
    resume_process_wait-outcome env fresh "p" waiting_db _ resumed_db refl
