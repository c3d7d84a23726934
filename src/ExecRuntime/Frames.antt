-- ===== src/ExecRuntime/Frames.antt =====
-- One connection of the exec runtime (src/exec-runtime-server.ts): the frames that the server and
-- the client (`callExecRuntimeSocket`) read from a socket, as steps of a state. What is read is a
-- list of UTF-16 code units, and `JSON.parse` is a parameter.
use chatgpt_web_agent.Base.{
  ℕ, String, ◌<>◌, Bool, true, false, not, Option, none, some, List, [], ◌∷◌, ◌++◌, length, ◌==◌,
  ltb, nat_eq, if◌then◌else◌, Result, ok, err, raise_if, ◌>>=◌, ◌>>◌, is_some,
}
use chatgpt_web_agent.Json.{
  Json, undefined, null, bool, num, str, arr, obj, Items, nil, cons, Fields, lookup_field, decimal,
}
use chatgpt_web_agent.Tools.{Units}
use chatgpt_web_agent.ExecRuntime.{ExecRuntimeRequest, parse_exec_runtime_request}
use chatgpt_web_agent.ExecRuntime.Responses.{
  ExecRuntimeResponse, success, failure, parse_exec_runtime_response,
}

abbrev pub max_frame_chars : ℕ
max_frame_chars = 2_000_000

-- `JSON.parse`
abbrev pub Parser : Type 0
Parser = Units → Result Json

abbrev pub before_line : ℕ → Option Units → Option Units
before_line c none = none
before_line c (some line) = some (c ∷ line)

-- `buffer.slice(0, buffer.indexOf('\n'))`, where there is a line break
unfoldable pub first_line : Units → Option Units
first_line [] = none
first_line (c ∷ s) = let rest = first_line s in if nat_eq c 10 then some [] else before_line c rest

unfoldable mutual
  unfolding decimal

  -- `String(value)`
  pub to_text : Json → String
  to_text undefined = "undefined"
  to_text null = "null"
  to_text (bool true) = "true"
  to_text (bool false) = "false"
  to_text (num n) = decimal n
  to_text (str s) = s
  to_text (obj fs) = "[object Object]"
  to_text (arr xs) = items_text xs

  -- The items of a list, with commas; one that is null or undefined is empty.
  pub items_text : Items → String
  items_text nil = ""
  items_text (cons v nil) = item_text v
  items_text (cons v (cons w vs)) = item_text v <> "," <> items_text (cons w vs)

  pub item_text : Json → String
  item_text undefined = ""
  item_text null = ""
  item_text (bool true) = "true"
  item_text (bool false) = "false"
  item_text (num n) = decimal n
  item_text (str s) = s
  item_text (obj fs) = "[object Object]"
  item_text (arr xs) = items_text xs

abbrev id_text : Json → String
id_text undefined = "unknown"
id_text null = "unknown"
id_text v = to_text v

-- The request id that is named where the request cannot be read.
abbrev blamed_id : Json → String
blamed_id (obj fs) = id_text (lookup_field "requestId" fs)
blamed_id _ = "unknown"

-- What the server does with the line of a connection: it answers with an error, or runs a request.
pub data Reaction : Type 0 where
  refuses : ExecRuntimeResponse → Reaction
  runs : ExecRuntimeRequest → Reaction

unfoldable pub on_request : Json → Result ExecRuntimeRequest → Reaction
on_request parsed (ok request) = runs request
on_request parsed (err e) = refuses (failure (blamed_id parsed) e)

unfoldable pub on_json : Result Json → Reaction
on_json (ok parsed) = on_request parsed (parse_exec_runtime_request parsed)
on_json (err e) = refuses (failure "unknown" ("invalid exec runtime JSON: " <> e))

-- A connection of the server, with its reaction once there is one (`handled`).
pub record Connection : Type 0 where
  pub buffer : Units
  pub handled : Option Reaction

unfoldable pub on_line : Parser → Units → Option Units → Connection
on_line parse buffer none = record { buffer = buffer; handled = none }
on_line parse buffer (some line) = record { buffer = buffer; handled = some (on_json (parse line)) }

unfoldable pub on_buffer : Parser → Units → Connection
on_buffer parse buffer =
    if ltb max_frame_chars (length buffer)
    then record {
      buffer = buffer;
      handled = some (refuses (failure "unknown" "exec runtime request exceeded the frame limit"));
    }
    else on_line parse buffer (first_line buffer)

-- `socket.on('data', ...)` of the server
unfoldable pub receive : Parser → Connection → Units → Connection
receive parse c chunk = if is_some c.handled then c else on_buffer parse (c.buffer ++ chunk)

unfoldable pub receive_all : Parser → Connection → List Units → Connection
receive_all parse c [] = c
receive_all parse c (chunk ∷ chunks) = receive_all parse (receive parse c chunk) chunks

abbrev pub opened : Connection
opened = record { buffer = []; handled = none }

-- What the client takes from a response: the result of its own request.
unfoldable pub take_response : String → ExecRuntimeResponse → Result Fields
take_response request_id (success id result) =
    raise_if (not (id == request_id)) "exec runtime response requestId mismatch" >> ok result
take_response request_id (failure id e) =
    raise_if (not (id == request_id)) "exec runtime response requestId mismatch" >> err e

unfoldable pub read_response : Parser → String → Units → Result Fields
read_response parse request_id line = do
  value ← parse line
  response ← parse_exec_runtime_response value
  take_response request_id response

-- A call of the client: what was read, and the result or the error once it is settled.
pub record Call : Type 0 where
  pub buffer : Units
  pub settled : Option (Result Fields)

pub data CallEvent : Type 0 where
  arrives : Units → CallEvent
  times_out : ℕ → CallEvent
  breaks : String → CallEvent
  closed : CallEvent

unfoldable pub call_line : Parser → String → Units → Option Units → Call
call_line parse request_id buffer none = record { buffer = buffer; settled = none }
call_line parse request_id buffer (some line) = record {
  buffer = buffer;
  settled = some (read_response parse request_id line);
}

unfoldable pub call_buffer : Parser → String → Units → Call
call_buffer parse request_id buffer =
    if ltb max_frame_chars (length buffer)
    then record {
      buffer = buffer;
      settled = some (err "exec runtime response exceeded the frame limit");
    }
    else call_line parse request_id buffer (first_line buffer)

unfoldable pub call_open : Parser → String → Call → CallEvent → Call
call_open parse request_id c (arrives chunk) = call_buffer parse request_id (c.buffer ++ chunk)
call_open parse request_id c (times_out ms) = record c {
  settled = some (err ("exec runtime request timed out after " <> decimal ms <> "ms"));
}
call_open parse request_id c (breaks e) = record c { settled = some (err e) }
call_open parse request_id c closed = record c {
  settled = some (err "exec runtime connection closed before a response");
}

-- An event of the client's socket or timer; once the call is settled the listeners are gone.
unfoldable pub call_step : Parser → String → Call → CallEvent → Call
call_step parse request_id c e = if is_some c.settled then c else call_open parse request_id c e

unfoldable pub call_steps : Parser → String → Call → List CallEvent → Call
call_steps parse request_id c [] = c
call_steps parse request_id c (e ∷ es) =
    call_steps parse request_id (call_step parse request_id c e) es

-- What stands at the path of the socket, and what a probe of it finds.
pub data Found : Type 0 where
  nothing not_a_socket : Found
  socket : Found

pub data Probe : Type 0 where
  live stale unknown : Probe

-- `removeStaleSocket`: whether the path is removed
unfoldable pub remove_stale_socket : String → Found → Probe → Result Bool
remove_stale_socket path nothing probe = ok false
remove_stale_socket path not_a_socket probe =
    err ("refusing to replace non-socket exec runtime path: " <> path)
remove_stale_socket path socket live = err ("exec runtime socket is already active: " <> path)
remove_stale_socket path socket unknown =
    err ("could not prove exec runtime socket is stale: " <> path)
remove_stale_socket path socket stale = ok true
