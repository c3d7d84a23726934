-- ===== src/ExecRuntime/Once.antt =====
-- That a request of the exec runtime is run once (src/exec-runtime-server.ts).
use chatgpt_web_agent.Base.{
  ℕ, suc, zero, String, false, not, Option, none, some, [], ◌∷◌, ◌≡◌, refl, subst, arith, if-cases,
  Bool-cases, inl, inr, ◌∙◌, ◌==◌, eq_iff, if◌then◌else◌,
}
use chatgpt_web_agent.Base.Table.{get, put}
use chatgpt_web_agent.Base.Table.Laws.{get-put, get-put_self}
use chatgpt_web_agent.ExecRuntime.{
  ExecRuntimeRequest, MemoEntry, Memo, is_expired, drop_expired, drop_excess, prune_memo,
  fingerprint_request, Execution, started, joined, rejected, execute_found, execute_once,
  complete_found, complete,
}

module _ (id : String) (e : MemoEntry) where
  drop_expired-keeps :
      (now : ℕ) (memo : Memo)
      → get id memo ≡ some e
      → is_expired now e ≡ false
      → get id (drop_expired now memo) ≡ some e
  unfolding drop_expired get
  drop_expired-keeps now [] found h = found
  drop_expired-keeps now ((j, f) ∷ rest) found h = ground (arith, drop_expired-keeps now rest)

  drop_excess-keeps :
      (excess : ℕ) (memo : Memo)
      → get id memo ≡ some e
      → e.completed_at ≡ none
      → get id (drop_excess excess memo) ≡ some e
  unfolding drop_excess get
  drop_excess-keeps excess [] found h = absurd (cc found)
  drop_excess-keeps zero ((j, f) ∷ rest) found h = found
  drop_excess-keeps (suc excess) ((j, f) ∷ rest) found h =
      ground (arith, drop_excess-keeps excess rest, drop_excess-keeps (suc excess) rest)

  prune_memo-keeps :
      (now : ℕ) (memo : Memo)
      → get id memo ≡ some e
      → e.completed_at ≡ none
      → get id (prune_memo now memo) ≡ some e
  unfolding prune_memo
  prune_memo-keeps now memo found h =
      drop_excess-keeps _ (drop_expired now memo) (drop_expired-keeps now memo found (ground arith))
        h

-- The request id has the entry of this call, which has not completed.
abbrev IsRunning : String → String → ℕ → Memo → Type 0
IsRunning id fingerprint call memo =
    get id memo ≡ some (record { fingerprint = fingerprint; call = call; completed_at = none })

execute_found-IsRunning :
    (call started_call : ℕ) (r : ExecRuntimeRequest) (found : Option MemoEntry) (memo : Memo)
    → (execute_found call r found memo).0 ≡ started started_call
    → IsRunning r.request_id
        (fingerprint_request r)
        started_call
        (execute_found call r found memo).1
unfolding execute_found
execute_found-IsRunning call started_call r none memo = λ h.
    subst (λ c. IsRunning r.request_id (fingerprint_request r) c (execute_found call r none memo).1)
      (same h) (get-put_self r.request_id _ memo)
  where
    same : {a b : ℕ} → started a ≡ started b → a ≡ b
    same p = cc
execute_found-IsRunning call started_call r (some e) memo =
    if-cases {A = Execution × Memo}
      (λ x.
        x.0 ≡ started started_call
        → IsRunning r.request_id (fingerprint_request r) started_call x.1)
      (not (e.fingerprint == fingerprint_request r)) _ _ (λ _ h. absurd (cc h)) λ _ h. absurd (cc h)

-- What becomes of the table while the call of one request id runs: any requests come, and calls of
-- other request ids complete.
pub data Later (id : String) (memo : Memo) : Memo → Type 0 where
  at_once : Later id memo memo
  requested :
      {s : Memo} (now call : ℕ) (r : ExecRuntimeRequest)
      → Later id memo s
      → Later id memo (execute_once now call r s).1
  completed :
      {s : Memo} (now : ℕ) (other : String)
      → (other == id) ≡ false
      → Later id memo s
      → Later id memo (complete now other s)

module _ (id fingerprint : String) (running : ℕ) where
  found-IsRunning :
      (call : ℕ) (r : ExecRuntimeRequest) (found : Option MemoEntry) (memo : Memo)
      → get r.request_id memo ≡ found
      → IsRunning id fingerprint running memo
      → IsRunning id fingerprint running (execute_found call r found memo).1
  unfolding execute_found
  found-IsRunning call r none memo absent h =
      put_other (record { fingerprint = fingerprint_request r; call = call; completed_at = none })
      ∙ h
    where
      put_other : (e : MemoEntry) → get id (put r.request_id e memo) ≡ get id memo
      put_other e = elim (Bool-cases (r.request_id == id)) [
        | inl this ↦
            let equal : r.request_id ≡ id = ground (arith, this, eq_iff r.request_id id) in
            absurd (cc (absent, equal, h))
        | inr other ↦ ground (arith, get-put r.request_id id e memo, other)
      ]
  found-IsRunning call r (some e) memo there h =
      if-cases {A = Execution × Memo} (λ x. IsRunning id fingerprint running x.1)
        (not (e.fingerprint == fingerprint_request r)) _ _ (λ _. h) λ _. h

  execute_once-IsRunning :
      (now call : ℕ) (r : ExecRuntimeRequest) (memo : Memo)
      → IsRunning id fingerprint running memo
      → IsRunning id fingerprint running (execute_once now call r memo).1
  unfolding execute_once
  execute_once-IsRunning now call r memo h =
      found-IsRunning call r _ (prune_memo now memo) refl (prune_memo-keeps id _ now memo h refl)

  complete-IsRunning :
      (now : ℕ) (other : String) (found : Option MemoEntry) (memo : Memo)
      → (other == id) ≡ false
      → IsRunning id fingerprint running memo
      → IsRunning id fingerprint running (complete_found now other found memo)
  unfolding complete_found
  complete-IsRunning now other none memo differs h = h
  complete-IsRunning now other (some e) memo differs h =
      ground (arith, get-put other id (record e { completed_at = some now }) memo)

  Later-IsRunning :
      {memo s : Memo}
      → Later id memo s
      → IsRunning id fingerprint running memo
      → IsRunning id fingerprint running s
  unfolding complete
  Later-IsRunning at_once h = h
  Later-IsRunning (requested now call r l) h =
      execute_once-IsRunning now call r _ (Later-IsRunning l h)
  Later-IsRunning (completed now other differs l) h =
      complete-IsRunning now other _ _ differs (Later-IsRunning l h)

execute_found-joins :
    (call running : ℕ) (r : ExecRuntimeRequest) (fingerprint : String) (memo : Memo)
    → (execute_found call r
        (some (record { fingerprint = fingerprint; call = running; completed_at = none }))
        memo).0
      ≡ (if fingerprint == fingerprint_request r then joined running else rejected)
unfolding execute_found
execute_found-joins call running r fingerprint memo = ground arith

-- After a request has started the backend's call, and until this call has completed, a request with
-- the same request id starts no other one: it joins the running call where it has the same
-- fingerprint, and is rejected otherwise. Any number of other requests may come, and calls of other
-- request ids complete, in between; how late it comes and how full the table is do not matter.
pub execute_once-once :
    (now now' call call' running : ℕ) (r r' : ExecRuntimeRequest) (memo memo' : Memo)
    → (execute_once now call r memo).0 ≡ started running
    → Later r.request_id (execute_once now call r memo).1 memo'
    → r'.request_id ≡ r.request_id
    → (execute_once now' call' r' memo').0
      ≡ (if fingerprint_request r == fingerprint_request r' then joined running else rejected)
unfolding execute_once execute_found fingerprint_request
execute_once-once now now' call call' running r r' memo memo' h later same =
    let here : IsRunning r.request_id (fingerprint_request r) running memo' =
      Later-IsRunning r.request_id (fingerprint_request r) running later (
        execute_found-IsRunning call running r (get r.request_id (prune_memo now memo))
          (prune_memo now memo) h) in
    rw same (
      rw (prune_memo-keeps r.request_id _ now' memo' here refl)
        (execute_found-joins call' running r' (fingerprint_request r) (prune_memo now' memo')))
