-- ===== src/Tests/Tools.antt =====
-- Runs of the listing of tools, of the pruning of logs, of connections and of the audit.
use chatgpt_web_agent.Json.{Json, num, bool, str, arr, obj, nil, Fields, field, end, lookup_field}
use chatgpt_web_agent.Tools.{Units}
use chatgpt_web_agent.ExecRuntime.Frames.{
  receive_all, opened, first_line, Call, CallEvent, call_steps, arrives, closed,
}
use chatgpt_web_agent.ExecRuntime.Framing.{
  joined, reaction_to, receive_all-whole, arrived, Own, call_steps-Own,
}
use chatgpt_web_agent.Ledger.{run, subscribe, plain_error, known_message}
use chatgpt_web_agent.Ledger.Secrecy.{run-secrecy}
use chatgpt_web_agent.Base.{
  ℕ, String, [], ◌∷◌, ◌≡◌, ◌≤◌, ◌⊎◌, refl, ok, map, List, Option, none, some, opt_eq, arith, true,
  false,
}
use chatgpt_web_agent.Base.Table.{get, put, any}
use chatgpt_web_agent.Retention.{
  LogFile, Directory, RetentionConfig, prune, disposable, sort_by_age, restat_all, prune-outcome,
}
use chatgpt_web_agent.Base.Table.Laws.{NodupKeys}
use chatgpt_web_agent.Composite.{
  Backend, list_tools, list_backends, list_one, list_descriptors, keys, list_tools-routes,
}

-- A tool is its own name, and a call returns a number.
abbrev shell : Backend String String ℕ
shell = record { list_tools = ok ("exec" ∷ "process" ∷ []); call_tool = λ t a. 1 }

abbrev files : Backend String String ℕ
files = record { list_tools = ok ("read" ∷ []); call_tool = λ t a. 2 }

list_tools-routes_example :
    NodupKeys (list_tools (λ t. t) (shell ∷ files ∷ [])).1
    × (keys (list_tools (λ t. t) (shell ∷ files ∷ [])).1
        ≡ map (λ t. t) ("exec" ∷ "process" ∷ "read" ∷ []))
unfolding list_tools list_backends list_one list_descriptors get put
list_tools-routes_example =
    list_tools-routes (λ t. t) (shell ∷ files ∷ []) ("exec" ∷ "process" ∷ "read" ∷ []) refl

abbrev old_log : LogFile
old_log = record { file = "a.jsonl"; mtime_ms = 0; size = 10 }

abbrev log : LogFile
log = record { file = "b.jsonl"; mtime_ms = 90_000_000; size = 20 }

abbrev directory : Directory
directory = record { restat = λ e. some e; removable = λ f. true }

abbrev retention : RetentionConfig
retention = record { retention_days = 1; max_bytes = 15 }

abbrev active_log : Option String
active_log = some "b.jsonl"

abbrev pruned : List String × (List String × ℕ)
pruned = prune directory retention active_log 100_000_000 (log ∷ old_log ∷ [])

prune-outcome_example :
    (any (λ f. opt_eq (some f) active_log) pruned.0 ≡ false)
    × (any (λ f. opt_eq (some f) active_log) pruned.1.0 ≡ false)
    × ((pruned.1.1 ≤ 15)
        ⊎ (pruned.1.0
            ≡ disposable directory active_log
                (sort_by_age (restat_all directory (log ∷ old_log ∷ [])))))
prune-outcome_example =
    prune-outcome directory retention active_log 100_000_000 (log ∷ old_log ∷ [])

-- A parser that reads every line as one request or response.
abbrev exec_request : Json
exec_request = obj (
    field "version" (num 2) (
      field "requestId" (str "r1")
        (field "callId" (str "c1") (field "tool" (str "exec") (field "args" (obj end) end)))))

abbrev exec_response : Fields
exec_response = field "content" (arr nil) end

abbrev exec_reply : Json
exec_reply = obj (
    field "version" (num 2) (
      field "requestId" (str "r1")
        (field "ok" (bool true) (field "result" (obj exec_response) end))))

abbrev chunks : List Units
chunks = (1 ∷ 2 ∷ []) ∷ (3 ∷ 10 ∷ 4 ∷ []) ∷ (5 ∷ []) ∷ []

receive_all-whole_example :
    (receive_all (λ line. ok exec_request) opened chunks).handled
    ≡ reaction_to (λ line. ok exec_request) (first_line (joined chunks))
unfolding joined
receive_all-whole_example = receive_all-whole (λ line. ok exec_request) chunks (omega arith)

abbrev replies : List CallEvent
replies = arrives (1 ∷ []) ∷ arrives (10 ∷ []) ∷ closed ∷ []

abbrev exchange : Call
exchange = call_steps (λ line. ok exec_reply) "r1" (record { buffer = []; settled = none }) replies

exchanged : exchange.settled ≡ some (ok exec_response)
unfolding call_steps chatgpt_web_agent.ExecRuntime.Frames.call_step
    chatgpt_web_agent.ExecRuntime.Frames.call_open chatgpt_web_agent.ExecRuntime.Frames.call_buffer
    chatgpt_web_agent.ExecRuntime.Frames.call_line first_line
    chatgpt_web_agent.ExecRuntime.Frames.read_response
    chatgpt_web_agent.ExecRuntime.Responses.parse_exec_runtime_response lookup_field
    chatgpt_web_agent.Base.is_blank chatgpt_web_agent.ExecRuntime.Frames.take_response
exchanged = refl

call_steps-Own_example :
    (line : Units) × (first_line (arrived replies) ≡ some line)
    × Own (λ line. ok exec_reply) "r1" line exec_response
call_steps-Own_example = call_steps-Own (λ line. ok exec_reply) "r1" replies exec_response exchanged

abbrev subscribe_with : String → Fields
subscribe_with secret =
    field "name" (str "workflow.continue")
      (field "delivery" (obj (field "url" (str "https://h") (field "secret" (str secret) end))) end)

run-secrecy_example :
    (run (λ s. s) subscribe (subscribe_with "a") (num 1) "e1" none
      ≡ run (λ s. s) subscribe (subscribe_with "b") (num 1) "e1" none)
    × (run (λ s. s) subscribe (subscribe_with "a") (num 1) "e1" (some (plain_error "bad a"))
        ≡ run (λ s. s) subscribe (subscribe_with "b") (num 1) "e1" (some (plain_error "bad b")))
unfolding lookup_field known_message
run-secrecy_example =
    run-secrecy (λ s. s) subscribe (subscribe_with "a") (subscribe_with "b") (num 1) "e1" "bad a"
      "bad b" (record { same_name = refl; same_topic = refl; same_url = refl }) refl refl
