-- ===== src/Workflows/Certainty.antt =====
-- What `synchronizeDeliveryOutcomes` of src/workflows.ts may release: a run none of whose deliveries
-- may have started it.
use chatgpt_web_agent.Base.{
  Bool, true, ◌&&◌, ◌||◌, Option, some, List, [], ◌∷◌, ◌≡◌, refl, arith, if-cases, truthy,
}
use chatgpt_web_agent.Base.Table.{any}
use chatgpt_web_agent.State.{Env, Db, Workflow, WorkflowRun, OutboxDelivery}
use chatgpt_web_agent.Events.{outbox_summary}
use chatgpt_web_agent.Workflows.Tasks.{deref, save}
use chatgpt_web_agent.Workflows.Sync.{
  may_start, is_ambiguous, is_empty, is_queued, is_queued_task, settle_run, sync_found, sync_task,
}

-- The delivery may have started a run, or may still.
abbrev pub is_uncertain : OutboxDelivery → Bool
is_uncertain d = may_start d.state || is_ambiguous d

any-uncertain :
    (rows : List OutboxDelivery)
    → any is_uncertain rows ≡ (any (λ d. may_start d.state) rows || any is_ambiguous rows)
unfolding any
any-uncertain [] = refl
any-uncertain (d ∷ ds) = ground (arith, any-uncertain ds)

-- The runs, the requests and the visits are as before.
abbrev pub KeepsRuns : Db → Db → Type 0
KeepsRuns db db' = (db'.runs ≡ db.runs) × (db'.requests ≡ db.requests) × (db'.visits ≡ db.visits)

settle_run-KeepsRuns :
    (env : Env) (task : Workflow) (run : WorkflowRun) (rows : List OutboxDelivery) (db : Db)
    → any is_uncertain rows ≡ true
    → KeepsRuns db (settle_run env task run rows db)
unfolding settle_run save
settle_run-KeepsRuns env task run rows db h =
    if-cases (KeepsRuns db) (is_empty rows || any (λ d. may_start d.state) rows) _ _
      (λ _. (refl, refl, refl))
      λ p.
        if-cases (KeepsRuns db) (any is_ambiguous rows) _ _ (λ _. (refl, refl, refl))
          λ q. absurd (ground (arith, any-uncertain rows))

sync_found-KeepsRuns :
    (env : Env) (task : Workflow) (found : Option WorkflowRun) (run : WorkflowRun) (db : Db)
    → found ≡ some run
    → any is_uncertain (outbox_summary run.event_id db) ≡ true
    → KeepsRuns db (sync_found env task found db)
unfolding sync_found
sync_found-KeepsRuns env task found run db e h = rw e (
    if-cases (KeepsRuns db) (is_queued run.state) _ _
      (λ _. settle_run-KeepsRuns env task run _ db h) λ _. (refl, refl, refl))

-- One round of the synchronisation, for a task whose current run has, among its last hundred
-- deliveries, one that is accepted, sending or pending, or one with an ambiguous attempt, cancels
-- no run and forgets no request and no visit.
pub sync_task-certain :
    (env : Env) (task : Workflow) (run : WorkflowRun) (db : Db)
    → deref task.current_run db.runs ≡ some run
    → any is_uncertain (outbox_summary run.event_id db) ≡ true
    → KeepsRuns db (sync_task env task db)
unfolding sync_task
sync_task-certain env task run db e h =
    if-cases (KeepsRuns db) (truthy task.current_run && is_queued_task task.state) _ _
      (λ _. sync_found-KeepsRuns env task _ run db e h) λ _. (refl, refl, refl)
