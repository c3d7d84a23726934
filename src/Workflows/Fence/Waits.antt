-- ===== src/Workflows/Fence/Waits.antt =====
-- The fence while tasks wait for processes: a wait takes a workspace only if no other task holds it,
-- and a refused resumption gives the task back what it had.
use chatgpt_web_agent.Base.{
  String, Bool, true, false, not, ◌||◌, Option, none, some, ◌≡◌, refl, ap, subst, if-cases, arith,
  truthy, opt_eq, eq_iff, ltb, js_length, is_blank, ◌==◌, err, raise_if, Ensures, returns, throws,
  Ensures-bind, Ensures-then, Ensures-if, Ensures-map,
}
use chatgpt_web_agent.Base.Table.{get}
use chatgpt_web_agent.State.{
  Env, Db, Workflow, WorkflowState, ProcessWait, ProcessObservation, DispatchResult,
}
use chatgpt_web_agent.Workflows.Tasks.{occupied, save, deref, workspace_busy}
use chatgpt_web_agent.Workflows.Sync.{synchronize}
use chatgpt_web_agent.Workflows.Dispatch.{Fresh, EnqueueInput, is_waiting_state, actor, enqueue}
use chatgpt_web_agent.Workflows.Callers.{dispatch, DispatchInput, external, ExternalInput}
use chatgpt_web_agent.Workflows.Lease.{finish}
use chatgpt_web_agent.Workflows.Waits.{
  WaitInput, finish_input, yield_run, leave_task, start_wait, wait_unless, wait_process,
  observe_found, record_process_observation, is_terminal,
}
use chatgpt_web_agent.Workflows.Resuming.{
  resume_input, freed, after_request, resume_task, resume_observed, resume_found,
  resume_process_wait,
}
use chatgpt_web_agent.Workflows.Rearming.{
  cancel_found, cancel_process_wait, rearm, enable_task, set_enabled,
}
use chatgpt_web_agent.Workflows.Fence.{
  IsKeyed, IsFenced, Shrinks, Shrinks-trans, Shrinks-refl, Shrinks-put, IsKeyed-put,
  IsFenced-Shrinks, IsFenced-put_over, Saved, untouched, wrote, Saved-Shrinks, Saved-save,
  Saved-IsFenced, Ensures-task,
}
use chatgpt_web_agent.Workflows.Fence.Sync.{synchronize-Shrinks}
use chatgpt_web_agent.Workflows.Fence.Enqueue.{enqueue-IsFenced}
use chatgpt_web_agent.Workflows.Fence.Tasks.{Fenced, finish-IsFenced}

enqueue-Fenced :
    (env : Env) (fresh : Fresh) (i : EnqueueInput) (db : Db)
    → IsFenced db.workflows
    → Ensures Fenced (enqueue env fresh i db)
enqueue-Fenced env fresh i db h = Ensures-map (λ r (h', _). h') (enqueue-IsFenced env fresh i db h)

yield_run-IsFenced :
    (env : Env) (i : WaitInput) (token : Option String) (db : Db)
    → IsFenced db.workflows
    → Ensures Fenced (yield_run env i token db)
unfolding yield_run
yield_run-IsFenced env i none db h = throws
yield_run-IsFenced env i (some token) db h =
    Ensures-if (token == "") (err "run_lease_required") _ (λ _. throws)
      λ _. Ensures-bind (actor env i.task token db) _ λ run _.
        Ensures-then (finish env (finish_input i token) db) _ (finish-IsFenced env _ db h)
          λ _ h'. returns h'

leave_task-IsFenced :
    (env : Env) (i : WaitInput) (task : Workflow) (db : Db)
    → IsFenced db.workflows
    → Ensures Fenced (leave_task env i task db)
unfolding leave_task
leave_task-IsFenced env i task db h = search (Ensures-if, yield_run-IsFenced, throws, returns)

start_wait-IsFenced :
    (env : Env) (i : WaitInput) (id : String) (source_run_id : Option String) (db : Db)
    → IsFenced db.workflows
    → Ensures Fenced (start_wait env i id source_run_id db)
unfolding start_wait save workspace_busy
start_wait-IsFenced env i id source_run_id db h = Ensures-task i.task db _ h.is_keyed λ task found.
    Ensures-bind (raise_if (workspace_busy task db) "workspace_busy") _
      λ u free. returns (IsFenced-put_over _ db.workflows db.workflows refl h (ground arith))

wait_unless-IsFenced :
    (env : Env) (i : WaitInput) (id : String) (existing : Option ProcessWait) (db : Db)
    → IsFenced db.workflows
    → Ensures Fenced (wait_unless env i id existing db)
unfolding wait_unless
wait_unless-IsFenced env i id (some existing) db h = returns h
wait_unless-IsFenced env i id none db h = Ensures-task i.task db _ h.is_keyed λ task found.
    Ensures-bind (raise_if (truthy task.waiting_for) "already_waiting_for_process") _ λ _ _.
      Ensures-then (leave_task env i task db) _ (leave_task-IsFenced env i task db h)
        λ (run, db') h'. start_wait-IsFenced env i id run db' h'

pub wait_process-IsFenced :
    (env : Env) (i : WaitInput) (db : Db)
    → IsFenced db.workflows
    → Ensures Fenced (wait_process env i db)
unfolding wait_process
wait_process-IsFenced env i db h =
    Ensures-bind
      (raise_if (is_blank i.session_id || ltb 200 (js_length i.session_id))
        "invalid_process_session")
      _ λ _ _. wait_unless-IsFenced env i _ _ db h

observe_found-workflows :
    (env : Env) (id : String) (o : ProcessObservation) (found : Option ProcessWait) (db : Db)
    → (observe_found env id o found db).workflows ≡ db.workflows
unfolding observe_found
observe_found-workflows env id o none db = refl
observe_found-workflows env id o (some wait) db = ground arith

pub record_process_observation-IsFenced :
    (env : Env) (id : String) (o : ProcessObservation) (db : Db)
    → IsFenced db.workflows
    → IsFenced (record_process_observation env id o db).workflows
unfolding record_process_observation
record_process_observation-IsFenced env id o db h = rw observe_found-workflows h

opt_eq_sound : (a b : Option String) → opt_eq a b ≡ true → a ≡ b
opt_eq_sound none none e = refl
opt_eq_sound (some a) (some b) e = ap some ((eq_iff a b).0 e)
opt_eq_sound none (some b) e = cc
opt_eq_sound (some a) none e = cc

-- The request after a wait: the task was freed in `w1`, and takes its wait back in `r` if it is
-- refused.
module _ (env : Env) (id : String) (wait : ProcessWait) (task : Workflow) (db : Db) where
  freed-Saved : Saved task db.workflows (save env (freed task) db)
  freed-Saved = Saved-save env task (freed task) db refl refl λ o. ground arith

  still_waits :
      opt_eq task.waiting_for (some id) ≡ true
      → truthy task.current_run || truthy (some id) ≡ true
      → occupied task ≡ true
  still_waits e o = rw (opt_eq_sound task.waiting_for (some id) e) o

  after_request-IsFenced :
      (r : DispatchResult × Db)
      → IsFenced db.workflows
      → get task.key db.workflows ≡ some task
      → opt_eq task.waiting_for (some id) ≡ true
      → IsFenced r.1.workflows
      → (r.0.accepted ≡ false
          → Shrinks (save env (freed task) db).workflows r.1.workflows × IsKeyed r.1.workflows)
      → IsFenced (after_request env id wait (freed task) r).1.workflows
  unfolding after_request save
  after_request-IsFenced r h found waits h' refused =
      if-cases Fenced r.0.accepted _ _ (λ _. h')
        λ e.
          let (s, keyed) = refused e in
          let (s1, _) =
            Saved-Shrinks db.workflows db.workflows (save env (freed task) db) task
              (Shrinks-refl db.workflows) h.is_keyed found freed-Saved in
          let again = record task {
            waiting_for = some id;
            state = WorkflowState.waiting;
            updated_at = env.now;
          } in
          IsFenced-Shrinks db.workflows _ h (IsKeyed-put again r.1.workflows keyed) (
            Shrinks-put db.workflows r.1.workflows task again
              (Shrinks-trans db.workflows (save env (freed task) db).workflows r.1.workflows s1 s)
              found refl (still_waits waits))

  resume_task-IsFenced :
      (fresh : Fresh) (o : ProcessObservation)
      → IsFenced db.workflows
      → get task.key db.workflows ≡ some task
      → Ensures Fenced (resume_task env fresh id wait o task db)
  unfolding resume_task external
  resume_task-IsFenced fresh o h found =
      Ensures-if (not (opt_eq task.waiting_for (some id)) || not (is_waiting_state task.state)) _ _
        (λ _. returns h)
        λ e.
          Ensures-then
            (external env fresh (resume_input wait (freed task) o) (save env (freed task) db)) _
            (enqueue-IsFenced env fresh _ (save env (freed task) db)
              (Saved-IsFenced db.workflows (save env (freed task) db) task h found freed-Saved))
            λ r (h', refused). returns (after_request-IsFenced r h found (ground arith) h' refused)

resume_found-IsFenced :
    (env : Env) (fresh : Fresh) (id : String) (found : Option ProcessWait) (db : Db)
    → IsFenced db.workflows
    → Ensures Fenced (resume_found env fresh id found db)
resume_found-IsFenced env fresh id none db h = returns h
resume_found-IsFenced env fresh id (some wait) db h =
    Ensures-if (is_terminal wait.state) _ _ (λ _. observed wait.observation) λ _. returns h
  where
    observed :
        (o : Option ProcessObservation) → Ensures Fenced (resume_observed env fresh id wait o db)
    observed none = returns h
    observed (some o) =
        Ensures-task wait.task db _ h.is_keyed
          λ task found. resume_task-IsFenced env id wait task db fresh o h found

pub resume_process_wait-IsFenced :
    (env : Env) (fresh : Fresh) (id : String) (db : Db)
    → IsFenced db.workflows
    → Ensures Fenced (resume_process_wait env fresh id db)
unfolding resume_process_wait
resume_process_wait-IsFenced env fresh id db h = resume_found-IsFenced env fresh id _ db h

cancel_found-Saved :
    (env : Env) (task : Workflow) (found : Option ProcessWait) (db : Db)
    → Saved task db.workflows (cancel_found env task found db).1
unfolding cancel_found save
cancel_found-Saved env task none db = untouched refl
cancel_found-Saved env task (some wait) db = wrote _ refl refl (λ o. o) refl

pub cancel_process_wait-IsFenced :
    (env : Env) (key : String) (db : Db)
    → IsFenced db.workflows
    → Ensures Fenced (cancel_process_wait env key db)
unfolding cancel_process_wait
cancel_process_wait-IsFenced env key db h = Ensures-task key db _ h.is_keyed λ task found.
    returns (Saved-IsFenced db.workflows _ task h found (cancel_found-Saved env task _ db))

rearm-workflows :
    (env : Env) (enabled : Bool) (wait : Option ProcessWait) (db : Db)
    → (rearm env enabled wait db).workflows ≡ db.workflows
unfolding rearm
rearm-workflows env enabled none db = refl
rearm-workflows env enabled (some wait) db = ground arith

enable_task-Saved :
    (env : Env) (enabled : Bool) (task : Workflow) (db : Db)
    → Saved task db.workflows (enable_task env enabled task db).1
enable_task-Saved env enabled task db =
    subst (λ w. Saved task w (enable_task env enabled task db).1)
      (rearm-workflows env enabled (deref task.waiting_for db.process_waits) db)
      (Saved-save env task (record task { enabled = enabled }) _ refl refl λ o. o)

pub set_enabled-IsFenced :
    (env : Env) (key : String) (enabled : Bool) (db : Db)
    → IsFenced db.workflows
    → Ensures Fenced (set_enabled env key enabled db)
unfolding set_enabled
set_enabled-IsFenced env key enabled db h =
    let (s, keyed) = synchronize-Shrinks env db h.is_keyed in
    let h' = IsFenced-Shrinks db.workflows _ h keyed s in
    Ensures-task key (synchronize env db) _ keyed λ task found.
      returns
        (Saved-IsFenced _ _ task h' found (enable_task-Saved env enabled task (synchronize env db)))

pub dispatch-IsFenced :
    (env : Env) (fresh : Fresh) (i : DispatchInput) (db : Db)
    → IsFenced db.workflows
    → Ensures Fenced (dispatch env fresh i db)
unfolding dispatch
dispatch-IsFenced env fresh i db h =
    Ensures-bind (actor env i.source_task i.lease_token db) _ λ source _.
      Ensures-task i.source_task db _ h.is_keyed
        λ task found. search (Ensures-if, returns, enqueue-Fenced)

pub external-IsFenced :
    (env : Env) (fresh : Fresh) (i : ExternalInput) (db : Db)
    → IsFenced db.workflows
    → Ensures Fenced (external env fresh i db)
unfolding external
external-IsFenced env fresh i db h = enqueue-Fenced env fresh _ db h
