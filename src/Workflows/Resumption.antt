-- ===== src/Workflows/Resumption.antt =====
-- Resuming after a process (`resumeProcessWait` of src/workflows.ts): the wait is handed over to the
-- continuation, or stays with its task.
use chatgpt_web_agent.Base.{
  String, true, false, not, ◌||◌, Option, none, some, ◌≡◌, ◌+◌, ◌⊎◌, inl, inr, refl, arith, opt_eq,
  if-cases, ok, Ensures, returns, Ensures-bind, Ensures-inv, Ensures-if,
}
use chatgpt_web_agent.Base.Table.{get}
use chatgpt_web_agent.Base.Table.Laws.{get-put_self}
use chatgpt_web_agent.State.{
  Env, Db, Workflow, WorkflowState, ProcessWait, WaitState, ProcessObservation, DispatchResult,
}
use chatgpt_web_agent.Workflows.Tasks.{task_of, save}
use chatgpt_web_agent.Workflows.Dispatch.{Fresh, is_waiting_state}
use chatgpt_web_agent.Workflows.Callers.{external}
use chatgpt_web_agent.Workflows.Waits.{is_terminal}
use chatgpt_web_agent.Workflows.Resuming.{
  resume_input, freed, after_request, resume_task, resume_observed, resume_found,
  resume_process_wait, dispatched_wait,
}

-- The wait is handed to the continuation `r`.
abbrev pub IsHandedOver : String → DispatchResult → Db → Type 0
IsHandedOver id r db =
    (wait : ProcessWait) × (get id db.process_waits ≡ some wait)
    × (wait.state ≡ WaitState.dispatched)
    × (wait.dispatch_id ≡ r.dispatch_id)

-- The wait is due again and a task waits for it.
abbrev pub IsHeld : Env → String → Db → Type 0
IsHeld env id db =
    ((wait : ProcessWait) × (get id db.process_waits ≡ some wait)
      × (wait.state ≡ WaitState.terminal)
      × (wait.next_check_at ≡ env.now + 5000))
    × ((task : Workflow) × (get task.key db.workflows ≡ some task)
        × (task.waiting_for ≡ some id)
        × (task.state ≡ WorkflowState.waiting))

abbrev pub Resumed : Env → String → Db → DispatchResult × Db → Type 0
Resumed env id db r =
    ((r.0.accepted ≡ true) × IsHandedOver id r.0 r.1)
    ⊎ ((r.0.accepted ≡ false) × ((r.1 ≡ db) ⊎ IsHeld env id r.1))

is_terminal-eq : (s : WaitState) → is_terminal s ≡ true → s ≡ WaitState.terminal
is_terminal-eq s e = ground arith

module _ (env : Env) (id : String) (wait : ProcessWait) where
  held_wait : String → ProcessWait
  held_wait reason = record wait { last_error = some reason; next_check_at = env.now + 5000 }

  held_task : Workflow → Workflow
  held_task task = record task {
    waiting_for = some id;
    state = WorkflowState.waiting;
    updated_at = env.now;
  }

  after_request-Resumed :
      (task : Workflow) (db : Db) (r : DispatchResult × Db)
      → is_terminal wait.state ≡ true
      → Resumed env id db (after_request env id wait task r)
  unfolding after_request save held_wait held_task
  after_request-Resumed task db r h =
      if-cases (Resumed env id db) r.0.accepted _ _
        (λ yes'. inl (yes', (dispatched_wait r.0 wait, get-put_self id _ _, refl, refl)))
        λ n. inr (
          n,
          inr (
            (held_wait r.0.reason, get-put_self id _ _, is_terminal-eq wait.state h, refl),
            (held_task task, get-put_self task.key _ _, refl, refl),
          ),
        )

  resume_task-Resumed :
      (fresh : Fresh) (o : ProcessObservation) (task : Workflow) (db : Db)
      → is_terminal wait.state ≡ true
      → Ensures (Resumed env id db) (resume_task env fresh id wait o task db)
  unfolding resume_task
  resume_task-Resumed fresh o task db h =
      Ensures-if (not (opt_eq task.waiting_for (some id)) || not (is_waiting_state task.state)) _ _
        (λ _. returns (inr (refl, inl refl)))
        λ _.
          Ensures-bind
            (external env fresh (resume_input wait (freed task) o) (save env (freed task) db)) _
            λ r _. returns (after_request-Resumed (freed task) db r h)

  resume_observed-Resumed :
      (fresh : Fresh) (o : Option ProcessObservation) (db : Db)
      → is_terminal wait.state ≡ true
      → Ensures (Resumed env id db) (resume_observed env fresh id wait o db)
  resume_observed-Resumed fresh none db h = returns (inr (refl, inl refl))
  resume_observed-Resumed fresh (some o) db h =
      Ensures-bind (task_of wait.task db) _ λ task _. resume_task-Resumed fresh o task db h

resume_found-Resumed :
    (env : Env) (fresh : Fresh) (id : String) (found : Option ProcessWait) (db : Db)
    → Ensures (Resumed env id db) (resume_found env fresh id found db)
resume_found-Resumed env fresh id none db = returns (inr (refl, inl refl))
resume_found-Resumed env fresh id (some wait) db =
    Ensures-if (is_terminal wait.state) _ _
      (λ h. resume_observed-Resumed env id wait fresh wait.observation db h)
      λ _. returns (inr (refl, inl refl))

-- When `resumeProcessWait` returns an accepted result, the wait is stored as dispatched with the
-- id of that dispatch. When it returns a refusal, either the whole store is as it was, or the wait
-- is stored as terminal and due again 5 s later and a task is stored in the state `waiting` for
-- this wait.
pub resume_process_wait-outcome :
    (env : Env) (fresh : Fresh) (id : String) (db : Db) (r : DispatchResult) (db' : Db)
    → resume_process_wait env fresh id db ≡ ok (r, db')
    → Resumed env id db (r, db')
unfolding resume_process_wait
resume_process_wait-outcome env fresh id db r db' e =
    Ensures-inv (resume_found-Resumed env fresh id _ db) e
