-- ===== src/ExecRuntime.antt =====
-- The exec runtime: the requests of its socket (src/exec-runtime-protocol.ts) and the table by
-- which a repeated request joins the first one's call (src/exec-runtime-server.ts, `pruneMemo`,
-- `executeOnce`). The message of an error leaves out the value that the source appends to it.
pub mod Once
pub mod Responses
pub mod Frames
pub mod Framing
use chatgpt_web_agent.Base.{
  ℕ, suc, zero, ◌+◌, ◌-◌, String, is_blank, Bool, true, false, not, ◌&&◌, ◌||◌, Option, none, some,
  List, [], ◌∷◌, ◌==◌, ltb, leb, nat_eq, is_some, if◌then◌else◌, Result, ok, err, raise_if, ◌>>=◌,
  ◌>>◌,
}
use chatgpt_web_agent.Base.Table.{Table, get, put}
use chatgpt_web_agent.Json.{Json, num, str, obj, field, end, Fields, lookup_field, stringify}

abbrev pub protocol_version : ℕ
protocol_version = 2

pub data ToolName : Type 0 where
  exec process : ToolName

pub record ExecRuntimeRequest : Type 0 where
  pub request_id : String
  pub call_id : String
  pub tool : ToolName
  pub args : Fields

-- `isRecord`
abbrev pub as_record : Json → String → Result Fields
as_record (obj fs) message = ok fs
as_record _ message = err message

abbrev pub is_version : Json → Bool
is_version (num n) = nat_eq n protocol_version
is_version _ = false

-- A text that is not blank.
abbrev pub required_text : Json → String → Result String
required_text (str s) message = if is_blank s then err message else ok s
required_text _ message = err message

abbrev pub tool_named : String → Result ToolName
tool_named s =
    if s == "exec"
    then ok exec
    else if s == "process"
    then ok process
    else err "unsupported exec runtime tool"

abbrev pub tool_of : Json → Result ToolName
tool_of (str s) = tool_named s
tool_of _ = err "unsupported exec runtime tool"

unfoldable pub parse_exec_runtime_request : Json → Result ExecRuntimeRequest
parse_exec_runtime_request value = do
  v ← as_record value "request must be an object"
  raise_if (not (is_version (lookup_field "version" v))) "unsupported exec runtime protocol version"
  request_id ← required_text (lookup_field "requestId" v) "requestId is required"
  call_id ← required_text (lookup_field "callId" v) "callId is required"
  tool ← tool_of (lookup_field "tool" v)
  args ← as_record (lookup_field "args" v) "args must be an object"
  ok (record { request_id = request_id; call_id = call_id; tool = tool; args = args })

abbrev pub tool_name : ToolName → String
tool_name exec = "exec"
tool_name process = "process"

unfoldable pub fingerprint_request : ExecRuntimeRequest → String
fingerprint_request r = stringify (
    obj (
      field "callId" (str r.call_id)
        (field "tool" (str (tool_name r.tool)) (field "args" (obj r.args) end))))

-- `call` names the backend's call whose promise the entry holds.
pub record MemoEntry : Type 0 where
  pub fingerprint : String
  pub call : ℕ
  pub completed_at : Option ℕ

abbrev pub Memo : Type 0
Memo = Table MemoEntry

abbrev pub idempotency_ttl_ms : ℕ
idempotency_ttl_ms = 300_000

abbrev pub idempotency_max_entries : ℕ
idempotency_max_entries = 256

-- `completedAt < Date.now() - IDEMPOTENCY_TTL_MS`
abbrev pub is_expired : ℕ → MemoEntry → Bool
is_expired now e = elim e.completed_at [ none ↦ false | some t ↦ ltb (t + idempotency_ttl_ms) now ]

unfoldable pub drop_expired : ℕ → Memo → Memo
drop_expired now [] = []
drop_expired now ((id, e) ∷ rest) =
    let later = drop_expired now rest in if is_expired now e then later else (id, e) ∷ later

unfoldable pub size : Memo → ℕ
size [] = 0
size (e ∷ rest) = 1 + size rest

-- At most so many completed entries, the oldest first.
unfoldable pub drop_excess : ℕ → Memo → Memo
drop_excess excess [] = []
drop_excess zero (entry ∷ rest) = entry ∷ rest
drop_excess (suc excess) ((id, e) ∷ rest) =
    let without = drop_excess excess rest in
    let kept = drop_excess (suc excess) rest in
    if is_some e.completed_at then without else (id, e) ∷ kept

unfoldable pub prune_memo : ℕ → Memo → Memo
prune_memo now memo =
    let alive = drop_expired now memo in drop_excess (size alive - idempotency_max_entries) alive

-- What `executeOnce` does: it starts the backend's call, joins an earlier one, or rejects the reuse
-- of a request id with another payload.
pub data Execution : Type 0 where
  started joined : ℕ → Execution
  rejected : Execution

unfoldable pub execute_found : ℕ → ExecRuntimeRequest → Option MemoEntry → Memo → Execution × Memo
execute_found call r (some e) memo =
    if not (e.fingerprint == fingerprint_request r) then (rejected, memo) else (joined e.call, memo)
execute_found call r none memo = (
  started call,
  put r.request_id
      (record { fingerprint = fingerprint_request r; call = call; completed_at = none }) memo,
)

-- `call` names the call that would be started.
unfoldable pub execute_once : ℕ → ℕ → ExecRuntimeRequest → Memo → Execution × Memo
execute_once now call r memo =
    let pruned = prune_memo now memo in execute_found call r (get r.request_id pruned) pruned

unfoldable pub complete_found : ℕ → String → Option MemoEntry → Memo → Memo
complete_found now id none memo = memo
complete_found now id (some e) memo = put id (record e { completed_at = some now }) memo

-- `finally`
unfoldable pub complete : ℕ → String → Memo → Memo
complete now id memo = complete_found now id (get id memo) memo
