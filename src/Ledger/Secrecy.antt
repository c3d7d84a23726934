-- ===== src/Ledger/Secrecy.antt =====
-- What cannot be read off the lines that src/request-ledger.ts and src/event-request-audit.ts write.
use chatgpt_web_agent.Base.{String, js_length, false, none, some, ◌≡◌, refl}
use chatgpt_web_agent.Json.{Json, str, Fields, end, field, lookup_field}
use chatgpt_web_agent.Ledger.{
  summarize_tool_args, summarize_exec, chars_of, EventMethod, list, subscribe, unsubscribe,
  plain_error, object_of, metadata, known_message, failure, run,
}

-- The parts of the parameters that a line is written from: the name, the topic and the URL of the
-- callback.
abbrev topic_of : Fields → Json
topic_of params = lookup_field "topic" (object_of (lookup_field "arguments" params))

abbrev url_of : Fields → Json
url_of params = lookup_field "url" (object_of (lookup_field "delivery" params))

pub record SameRequest (p q : Fields) : Type 0 where
  pub same_name : lookup_field "name" p ≡ lookup_field "name" q
  pub same_topic : topic_of p ≡ topic_of q
  pub same_url : url_of p ≡ url_of q

metadata-same :
    (sha256 : String → String) (method : EventMethod) (p q : Fields) (request_id : Json)
    (rest : Fields)
    → SameRequest p q
    → metadata sha256 method p request_id rest ≡ metadata sha256 method q request_id rest
unfolding metadata
metadata-same sha256 list p q request_id rest h = cc (h.same_topic, h.same_url)
metadata-same sha256 subscribe p q request_id rest h = cc (h.same_name, h.same_topic, h.same_url)
metadata-same sha256 unsubscribe p q request_id rest h = cc (h.same_name, h.same_topic, h.same_url)

failure-unknown :
    (m : String) → known_message m ≡ false → failure (plain_error m) ≡ ("Error", "unclassified")
unfolding failure
failure-unknown m h = rw h refl

-- The lines that are written about an event request are the same for two requests of one name, topic
-- and callback URL, whatever else their parameters hold, such as the secret that signs, and whatever
-- text an error has that is not on the short list of known messages.
pub run-secrecy :
    (sha256 : String → String) (method : EventMethod) (p q : Fields) (request_id : Json)
    (id m n : String)
    → SameRequest p q
    → known_message m ≡ false
    → known_message n ≡ false
    → (run sha256 method p request_id id none ≡ run sha256 method q request_id id none)
      × (run sha256 method p request_id id (some (plain_error m))
          ≡ run sha256 method q request_id id (some (plain_error n)))
unfolding run
run-secrecy sha256 method p q request_id id m n h hm hn = (
  rw (metadata-same sha256 method p q request_id end h) refl,
  rw
      (
        failure-unknown m hm,
        failure-unknown n hn,
        metadata-same sha256 method p q request_id end h,
        metadata-same sha256 method p q request_id (field "reason" (str "unclassified") end) h,
      )
      refl,
)

-- The summary of an `exec` call tells of its command nothing but the length.
pub exec-secrecy :
    (c d : String) (args : Fields)
    → js_length c ≡ js_length d
    → summarize_tool_args "exec" (field "command" (str c) args)
      ≡ summarize_tool_args "exec" (field "command" (str d) args)
unfolding summarize_tool_args summarize_exec lookup_field chars_of
exec-secrecy c d args e = rw e refl
