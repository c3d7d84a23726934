-- ===== src/Ledger.antt =====
-- What the request ledger and the audit of event requests write (src/request-ledger.ts,
-- src/event-request-audit.ts): metadata, and no content. The pruning of the files is in Retention.
pub mod Secrecy
use chatgpt_web_agent.Base.{
  ℕ, zero, suc, ◌+◌, ◌-◌, String, ◌<>◌, trim, slice_to, js_length, Bool, true, false, not, ◌&&◌,
  ◌||◌, Option, none, some, List, [], ◌∷◌, ◌++◌, length, ◌==◌, ltb, leb, if◌then◌else◌,
}
use chatgpt_web_agent.Json.{
  Json, undefined, null, bool, num, str, arr, obj, Items, Fields, end, field, lookup_field, decimal,
}
use chatgpt_web_agent.Events.{continue_event_name}
use chatgpt_web_agent.Tools.{CallToolResult, ContentBlock, text, image, resource}

-- `numeric`, `boolean` and `text`
unfoldable pub numeric : Json → Json
numeric (num n) = num n
numeric _ = undefined

unfoldable pub boolean : Json → Json
boolean (bool b) = bool b
boolean _ = undefined

unfoldable pub trimmed_text : Json → Json
trimmed_text (str s) = if trim s == "" then undefined else str (trim s)
trimmed_text _ = undefined

unfoldable pub chars_of : Json → Json
chars_of (str s) = num (js_length s)
chars_of _ = undefined

unfoldable pub summarize_process : Fields → Fields
summarize_process args = field "action" (trimmed_text (lookup_field "action" args)) (
    field "sessionId" (trimmed_text (lookup_field "sessionId" args)) (
      field "timeoutMs" (numeric (lookup_field "timeout" args)) (
        field "offset" (numeric (lookup_field "offset" args))
          (field "limit" (numeric (lookup_field "limit" args)) end))))

unfoldable pub summarize_exec : Fields → Fields
summarize_exec args = field "workdir" (trimmed_text (lookup_field "workdir" args)) (
    field "timeoutSec" (numeric (lookup_field "timeoutSeconds" args)) (
      field "yieldMs" (numeric (lookup_field "yieldMs" args)) (
        field "background" (boolean (lookup_field "background" args)) (
          field "pty" (boolean (lookup_field "pty" args))
            (field "commandChars" (chars_of (lookup_field "command" args)) end)))))

unfoldable pub summarize_read : Fields → Fields
summarize_read args = field "path" (trimmed_text (lookup_field "path" args)) (
    field "offset" (numeric (lookup_field "offset" args)) (
      field "limit" (numeric (lookup_field "limit" args)) (
        field "cursor" (numeric (lookup_field "cursor" args))
          (field "optional" (boolean (lookup_field "optional" args)) end))))

-- `summarizeToolArgs`
unfoldable pub summarize_tool_args : String → Fields → Fields
summarize_tool_args tool args =
    if tool == "process"
    then summarize_process args
    else if tool == "exec"
    then summarize_exec args
    else if tool == "read"
    then summarize_read args
    else end

unfoldable pub text_chars : List ContentBlock → ℕ
text_chars [] = 0
text_chars (text t ∷ bs) = length t + text_chars bs
text_chars (_ ∷ bs) = text_chars bs

unfoldable pub image_chars : List ContentBlock → ℕ
image_chars [] = 0
image_chars (image base64 mime ∷ bs) = js_length base64 + image_chars bs
image_chars (_ ∷ bs) = image_chars bs

abbrev has_structure : Option Fields → Bool
has_structure none = false
has_structure (some _) = true

-- `summarizeToolResult`
unfoldable pub summarize_tool_result : CallToolResult Fields → Fields
summarize_tool_result r = field "isError" (bool r.is_error) (
    field "contentBlocks" (num (length r.content)) (
      field "textChars" (num (text_chars r.content)) (
        field "imageBase64Chars" (num (image_chars r.content))
          (field "hasStructuredContent" (bool (has_structure r.structured_content)) end))))

-- The methods of event requests, and what an operation throws: the endpoint error with its reason,
-- an error with its message, or another value.
pub data EventMethod : Type 0 where
  list subscribe unsubscribe : EventMethod

pub data Thrown : Type 0 where
  endpoint_error : String → Thrown
  plain_error : String → Thrown
  other_value : Thrown

abbrev pub method_name : EventMethod → String
method_name list = "events/list"
method_name subscribe = "events/subscribe"
method_name unsubscribe = "events/unsubscribe"

abbrev pub done_phase : EventMethod → String
done_phase list = "events_list"
done_phase subscribe = "event_subscribed"
done_phase unsubscribe = "event_unsubscribed"

abbrev object_of : Json → Fields
object_of (obj fs) = fs
object_of _ = end

-- `digest`, given the SHA-256 in hexadecimal
unfoldable pub digest : (String → String) → Json → Json
digest sha256 (str s) = str (slice_to 24 (sha256 s))
digest sha256 (num n) = str (slice_to 24 (sha256 (decimal n)))
digest sha256 _ = undefined

abbrev is_continue : Json → Bool
is_continue (str s) = s == continue_event_name
is_continue _ = false

abbrev event_shown : EventMethod → Json → Json
event_shown list name = undefined
event_shown _ name = if is_continue name then str continue_event_name else str "unrecognized"

-- `metadata`
unfoldable pub metadata : (String → String) → EventMethod → Fields → Json → Fields → Fields
metadata sha256 method params request_id rest = field "method" (str (method_name method)) (
    field "requestIdHash" (digest sha256 request_id) (
      field "event" (event_shown method (lookup_field "name" params)) (
        field "topicHash"
          (digest sha256 (lookup_field "topic" (object_of (lookup_field "arguments" params))))
          (field "callbackUrlHash"
            (digest sha256 (lookup_field "url" (object_of (lookup_field "delivery" params))))
            rest))))

unfoldable pub endpoint_reason : String → String
endpoint_reason reason =
    if reason == "invalid_url" || reason == "timeout" || reason == "challenge_failed"
    then reason
    else "other"

unfoldable pub known_message : String → Bool
known_message m =
    m == "unsupported_event"
    || m == "unsupported_delivery"
    || m == "invalid_webhook_secret"
    || m == "invalid_ttl"
    || m == "subscription_cancelled_during_verification"

-- `failure`: the kind and the reason
unfoldable pub failure : Thrown → String × String
failure (endpoint_error reason) = ("CallbackEndpointError", endpoint_reason reason)
failure (plain_error message) = ("Error", if known_message message then message else "unclassified")
failure other_value = ("NonErrorThrown", "unclassified")

-- A line of the ledger about an event request.
pub record AuditLine : Type 0 where
  pub phase : String
  pub call_id : String
  pub succeeded : Option Bool
  pub error_kind : Option String
  pub details : Fields

-- How the validation of the parameters ends.
pub data Validation : Type 0 where
  valid : Validation
  issues : ℕ → Validation
  throws : Validation

abbrev validation_line : EventMethod → String → Validation → List AuditLine
validation_line method id valid = []
validation_line method id (issues n) =
    record {
      phase = "event_request_rejected";
      call_id = id;
      succeeded = some false;
      error_kind = some "InvalidParams";
      details = field "method" (str (method_name method)) (field "issueCount" (num n) end);
    }
    ∷ []
validation_line method id throws =
    record {
      phase = "event_request_rejected";
      call_id = id;
      succeeded = some false;
      error_kind = some "SchemaValidationError";
      details = field "method" (str (method_name method)) end;
    }
    ∷ []

-- The lines that `params` writes when a request is validated.
unfoldable pub validate : EventMethod → String → Validation → List AuditLine
validate method id v =
    record {
      phase = "event_request_received";
      call_id = id;
      succeeded = none;
      error_kind = none;
      details = field "method" (str (method_name method)) end;
    }
    ∷ validation_line method id v

abbrev end_line :
    (String → String) → EventMethod → Fields → Json → String → Option Thrown → AuditLine
end_line sha256 method params request_id id none = record {
  phase = done_phase method;
  call_id = id;
  succeeded = some true;
  error_kind = none;
  details = metadata sha256 method params request_id end;
}
end_line sha256 method params request_id id (some thrown) = record {
  phase = "event_request_failed";
  call_id = id;
  succeeded = some false;
  error_kind = some (failure thrown).0;
  details = metadata sha256 method params request_id (field "reason" (str (failure thrown).1) end);
}

-- The lines that `run` writes about an operation that returns, or throws.
unfoldable pub run :
    (String → String) → EventMethod → Fields → Json → String → Option Thrown → List AuditLine
run sha256 method params request_id id thrown =
    record {
      phase = "event_request_validated";
      call_id = id;
      succeeded = some true;
      error_kind = none;
      details = metadata sha256 method params request_id end;
    }
    ∷ end_line sha256 method params request_id id thrown
    ∷ []
