-- ===== src/ExecRuntime/Responses.antt =====
-- The responses of the exec runtime (src/exec-runtime-protocol.ts, `parseExecRuntimeResponse`). A
-- tool's result is a JSON object with a list of content.
use chatgpt_web_agent.Base.{
  String, is_blank, true, false, not, Result, ok, err, raise_if, ◌>>=◌, ◌>>◌, ◌≡◌, refl,
}
use chatgpt_web_agent.Json.{Json, bool, num, str, arr, obj, Items, Fields, end, field, lookup_field}
use chatgpt_web_agent.ExecRuntime.{protocol_version, as_record, is_version, required_text}

pub data ExecRuntimeResponse : Type 0 where
  success : String → Fields → ExecRuntimeResponse
  failure : String → String → ExecRuntimeResponse

abbrev pub request_id_of : ExecRuntimeResponse → String
request_id_of (success id _) = id
request_id_of (failure id _) = id

abbrev error_text : String → Json → Result ExecRuntimeResponse
error_text id (str e) = ok (failure id e)
error_text id _ = err "error response is missing error text"

abbrev with_content : String → Fields → Json → Result ExecRuntimeResponse
with_content id result (arr _) = ok (success id result)
with_content id result _ = err "success response is missing a tool result"

abbrev tool_result : String → Json → Result ExecRuntimeResponse
tool_result id (obj result) = with_content id result (lookup_field "content" result)
tool_result id _ = err "success response is missing a tool result"

abbrev by_ok : String → Fields → Json → Result ExecRuntimeResponse
by_ok id value (bool false) = error_text id (lookup_field "error" value)
by_ok id value (bool true) = tool_result id (lookup_field "result" value)
by_ok id value _ = err "success response is missing a tool result"

-- `parseExecRuntimeResponse`; the message about the version is without the value.
unfoldable pub parse_exec_runtime_response : Json → Result ExecRuntimeResponse
parse_exec_runtime_response value = do
  v ← as_record value "response must be an object"
  raise_if (not (is_version (lookup_field "version" v))) "unsupported exec runtime protocol version"
  id ← required_text (lookup_field "requestId" v) "response requestId is required"
  by_ok id v (lookup_field "ok" v)

-- The response that the runtime writes.
unfoldable pub response_json : ExecRuntimeResponse → Json
response_json (success id result) = obj (
    field "version" (num protocol_version)
      (field "requestId" (str id) (field "ok" (bool true) (field "result" (obj result) end))))
response_json (failure id e) = obj (
    field "version" (num protocol_version)
      (field "requestId" (str id) (field "ok" (bool false) (field "error" (str e) end))))

abbrev pub HasContent : ExecRuntimeResponse → Type 0
HasContent (success _ result) = (items : Items) × (lookup_field "content" result ≡ arr items)
HasContent (failure _ _) = Unit

with_content-arr :
    (id : String) (result : Fields) (content : Json) (items : Items)
    → content ≡ arr items
    → with_content id result content ≡ ok (success id result)
with_content-arr id result content items e = rw e refl

-- A response is read back as it was written, where its request id is not blank and its result, if it
-- has one, has a list of content.
pub parse-response_json :
    (r : ExecRuntimeResponse)
    → is_blank (request_id_of r) ≡ false
    → HasContent r
    → parse_exec_runtime_response (response_json r) ≡ ok r
unfolding parse_exec_runtime_response response_json lookup_field
parse-response_json (success id result) named (items, e) =
    rw named (with_content-arr id result (lookup_field "content" result) items e)
parse-response_json (failure id e) named h = rw named refl
