-- ===== src/ExecRuntime/Framing.antt =====
-- The framing of the exec runtime's socket (src/exec-runtime-server.ts) does not depend on how a
-- stream is cut into chunks, and a call takes the response to its own request only.
use chatgpt_web_agent.Base.{
  ◌≤◌, String, true, false, not, Option, none, some, List, [], ◌∷◌, ◌++◌, length, length-append,
  append_assoc, append-nil, ◌==◌, ltb, nat_eq, if-cases, Result, ok, err, raise_if, ◌≡◌, refl, sym,
  ap, ◌∙◌, arith, Option-cases, Bool-cases, inl, inr, eq_iff, Ensures, returns, throws,
  Ensures-bind, Ensures-map, is_some, subst,
}
use chatgpt_web_agent.Json.{Json, Fields}
use chatgpt_web_agent.Tools.{Units}
use chatgpt_web_agent.ExecRuntime.Responses.{
  ExecRuntimeResponse, success, failure, parse_exec_runtime_response,
}
use chatgpt_web_agent.ExecRuntime.Frames.{
  Parser, max_frame_chars, first_line, Reaction, on_json, on_line, on_buffer, Connection, opened,
  receive, receive_all, take_response, read_response, Call, CallEvent, arrives, times_out, breaks,
  closed, call_line, call_buffer, call_open, call_step, call_steps,
}

-- The stream that the chunks make up.
unfoldable pub joined : List Units → Units
joined [] = []
joined (chunk ∷ chunks) = chunk ++ joined chunks

-- The reference: the reaction to a whole stream.
unfoldable pub reaction_to : Parser → Option Units → Option Reaction
reaction_to parse none = none
reaction_to parse (some line) = some (on_json (parse line))

first_line-append : (s t line : Units) → first_line s ≡ some line → first_line (s ++ t) ≡ some line
unfolding first_line
first_line-append [] t line e = absurd (cc e)
first_line-append (c ∷ s) t line e = elim (Bool-cases (nat_eq c 10)) [
  | inl end ↦ ground (arith, end, e)
  | inr more ↦ elim (Option-cases (first_line s)) [
    | inl none_yet ↦ absurd (ground (arith, more, none_yet, e))
    | inr (l, found) ↦ ground (arith, more, found, e, first_line-append s t l found)
  ]
]

receive-closed :
    (parse : Parser) (c : Connection) (chunk : Units) (r : Reaction)
    → c.handled ≡ some r
    → receive parse c chunk ≡ c
unfolding receive
receive-closed parse c chunk r e =
    let done : is_some c.handled ≡ true = ap is_some e in rw done refl

receive-waiting :
    (parse : Parser) (c : Connection) (chunk : Units)
    → c.handled ≡ none
    → receive parse c chunk ≡ on_buffer parse (c.buffer ++ chunk)
unfolding receive
receive-waiting parse c chunk e =
    let waits : is_some c.handled ≡ false = ap is_some e in rw waits refl

receive_all-handled :
    (parse : Parser) (c : Connection) (chunks : List Units) (r : Reaction)
    → c.handled ≡ some r
    → (receive_all parse c chunks).handled ≡ some r
unfolding receive_all
receive_all-handled parse c [] r e = e
receive_all-handled parse c (chunk ∷ chunks) r e =
    ap (λ d. (receive_all parse d chunks).handled) (receive-closed parse c chunk r e)
    ∙ receive_all-handled parse c chunks r e

on_buffer-short :
    (parse : Parser) (buffer : Units)
    → length buffer ≤ max_frame_chars
    → on_buffer parse buffer ≡ on_line parse buffer (first_line buffer)
unfolding on_buffer
on_buffer-short parse buffer short =
    let within : ltb max_frame_chars (length buffer) ≡ false = ground (arith, short) in
    rw within refl

-- The buffer after a chunk that is not too long.
receive-line :
    (parse : Parser) (c : Connection) (chunk rest : Units)
    → c.handled ≡ none
    → length ((c.buffer ++ chunk) ++ rest) ≤ max_frame_chars
    → receive parse c chunk ≡ on_line parse (c.buffer ++ chunk) (first_line (c.buffer ++ chunk))
receive-line parse c chunk rest waiting short =
    receive-waiting parse c chunk waiting
    ∙ on_buffer-short parse (c.buffer ++ chunk)
        (omega (arith, short, length-append (c.buffer ++ chunk) rest))

receive_all-from :
    (parse : Parser) (c : Connection) (chunks : List Units)
    → c.handled ≡ none
    → first_line c.buffer ≡ none
    → length (c.buffer ++ joined chunks) ≤ max_frame_chars
    → (receive_all parse c chunks).handled
      ≡ reaction_to parse (first_line (c.buffer ++ joined chunks))
unfolding receive_all joined reaction_to on_line
receive_all-from parse c [] waiting no_line short =
    waiting ∙ ap (reaction_to parse) (sym no_line ∙ ap first_line (sym (append-nil c.buffer)))
receive_all-from parse c (chunk ∷ chunks) waiting no_line short =
    let whole : (c.buffer ++ chunk) ++ joined chunks ≡ c.buffer ++ (chunk ++ joined chunks) =
      append_assoc c.buffer chunk (joined chunks) in
    let short' : length ((c.buffer ++ chunk) ++ joined chunks) ≤ max_frame_chars =
      omega (arith, short, ap length whole) in
    let got : receive parse c chunk
        ≡ on_line parse (c.buffer ++ chunk) (first_line (c.buffer ++ chunk)) =
      receive-line parse c chunk (joined chunks) waiting short' in
    elim (Option-cases (first_line (c.buffer ++ chunk))) [
      | inl still ↦
          ap (λ d. (receive_all parse d chunks).handled)
            (got ∙ ap (on_line parse (c.buffer ++ chunk)) still)
          ∙ receive_all-from parse (record { buffer = c.buffer ++ chunk; handled = none }) chunks
              refl still short'
          ∙ ap (λ b. reaction_to parse (first_line b)) whole
      | inr (line, found) ↦
          ap (λ d. (receive_all parse d chunks).handled)
            (got ∙ ap (on_line parse (c.buffer ++ chunk)) found)
          ∙ receive_all-handled parse
              (record { buffer = c.buffer ++ chunk; handled = some (on_json (parse line)) }) chunks
              (on_json (parse line)) refl
          ∙ ap (reaction_to parse) (
              sym (first_line-append (c.buffer ++ chunk) (joined chunks) line found)
              ∙ ap first_line whole)
    ]

-- However a stream of at most two million code units is cut into chunks, the server reacts to it as
-- to the whole: not at all while it has no line break, and otherwise to what stands before the first
-- one, once.
pub receive_all-whole :
    (parse : Parser) (chunks : List Units)
    → length (joined chunks) ≤ max_frame_chars
    → (receive_all parse opened chunks).handled ≡ reaction_to parse (first_line (joined chunks))
unfolding first_line
receive_all-whole parse chunks short = receive_all-from parse opened chunks refl refl short

take-own :
    (request_id : String) (r : ExecRuntimeResponse)
    → Ensures (λ result. r ≡ success request_id result) (take_response request_id r)
unfolding take_response
take-own request_id (success id result) =
    Ensures-bind (raise_if (not (id == request_id)) _) _
      λ _ e. returns (ap (λ i. success i result) ((eq_iff id request_id).0 (ground (arith, e))))
take-own request_id (failure id e) =
    Ensures-bind (raise_if (not (id == request_id)) _) _ λ _ _. throws

-- A result that the client may take: the line is a response of success to its own request.
abbrev pub Own : Parser → String → Units → Fields → Type 0
Own parse request_id line result =
    (value : Json) × (parse line ≡ ok value)
    × (parse_exec_runtime_response value ≡ ok (success request_id result))

read-Own :
    (parse : Parser) (request_id : String) (line : Units)
    → Ensures (Own parse request_id line) (read_response parse request_id line)
unfolding read_response
read-Own parse request_id line = Ensures-bind (parse line) _ λ value parsed.
    Ensures-bind (parse_exec_runtime_response value) _ λ response good.
      Ensures-map (λ result same. (value, parsed, good ∙ ap ok same)) (take-own request_id response)

-- What has arrived on the socket.
unfoldable pub arrived : List CallEvent → Units
arrived [] = []
arrived (arrives chunk ∷ es) = chunk ++ arrived es
arrived (_ ∷ es) = arrived es

-- A call, where `s` has arrived: it waits with all of `s` in its buffer, has failed, or has taken the
-- result of the first line of `s`.
data Fine (parse : Parser) (request_id : String) (s : Units) : Call → Type 0 where
  waits : Fine parse request_id s (record { buffer = s; settled = none })
  fails :
      {b : Units} {e : String}
      → Fine parse request_id s (record { buffer = b; settled = some (err e) })
  takes :
      {b line : Units} {result : Fields}
      → first_line s ≡ some line
      → Own parse request_id line result
      → Fine parse request_id s (record { buffer = b; settled = some (ok result) })

read-Fine :
    (parse : Parser) (request_id : String) (s line : Units) (r : Result Fields)
    → first_line s ≡ some line
    → Ensures (Own parse request_id line) r
    → Fine parse request_id s (record { buffer = s; settled = some r })
read-Fine parse request_id s line _ first (returns own) = takes first own
read-Fine parse request_id s line _ first throws = fails

line-Fine :
    (parse : Parser) (request_id : String) (s : Units) (line : Option Units)
    → first_line s ≡ line
    → Fine parse request_id s (call_line parse request_id s line)
unfolding call_line
line-Fine parse request_id s none first = waits
line-Fine parse request_id s (some line) first =
    read-Fine parse request_id s line _ first (read-Own parse request_id line)

-- What an event adds to the stream.
abbrev added : CallEvent → Units
added (arrives chunk) = chunk
added _ = []

arrived-added : (e : CallEvent) (es : List CallEvent) → arrived (e ∷ es) ≡ added e ++ arrived es
unfolding arrived
arrived-added (arrives chunk) es = refl
arrived-added (times_out ms) es = refl
arrived-added (breaks message) es = refl
arrived-added closed es = refl

open-Fine :
    (parse : Parser) (request_id : String) (s : Units) (e : CallEvent)
    → Fine parse request_id
        (s ++ added e)
        (call_open parse request_id (record { buffer = s; settled = none }) e)
unfolding call_open call_buffer
open-Fine parse request_id s (arrives chunk) =
    if-cases (Fine parse request_id (s ++ chunk)) (ltb max_frame_chars (length (s ++ chunk))) _ _
      (λ _. fails) λ _. line-Fine parse request_id (s ++ chunk) (first_line (s ++ chunk)) refl
open-Fine parse request_id s (times_out ms) = fails
open-Fine parse request_id s (breaks e) = fails
open-Fine parse request_id s closed = fails

step-Fine :
    (parse : Parser) (request_id : String) (s : Units) (c : Call) (e : CallEvent)
    → Fine parse request_id s c
    → Fine parse request_id (s ++ added e) (call_step parse request_id c e)
unfolding call_step
step-Fine parse request_id s _ e waits = open-Fine parse request_id s e
step-Fine parse request_id s _ e fails = fails
step-Fine parse request_id s _ e (takes {line} first own) =
    takes (first_line-append s (added e) line first) own

steps-Fine :
    (parse : Parser) (request_id : String) (es : List CallEvent) (s : Units) (c : Call)
    → Fine parse request_id s c
    → Fine parse request_id (s ++ arrived es) (call_steps parse request_id c es)
unfolding call_steps arrived
steps-Fine parse request_id [] s c h = subst (λ t. Fine parse request_id t c) (sym (append-nil s)) h
steps-Fine parse request_id (e ∷ es) s c h =
    subst
      (λ t.
        Fine parse request_id t (call_steps parse request_id (call_step parse request_id c e) es))
      (append_assoc s (added e) (arrived es) ∙ ap (λ t. s ++ t) (sym (arrived-added e es)))
      (steps-Fine parse request_id es (s ++ added e) (call_step parse request_id c e)
        (step-Fine parse request_id s c e h))

Fine-Own :
    (parse : Parser) (request_id : String) (s : Units) (c : Call) (result : Fields)
    → Fine parse request_id s c
    → c.settled ≡ some (ok result)
    → (line : Units) × (first_line s ≡ some line) × Own parse request_id line result
Fine-Own parse request_id s _ result waits e = absurd (cc e)
Fine-Own parse request_id s _ result fails e = absurd (cc e)
Fine-Own parse request_id s _ result (takes {line} {result = own_result} first own) e =
    (line, first, subst (Own parse request_id line) (same e) own)
  where
    same : {a b : Fields} → some (ok a) ≡ some (ok b) → a ≡ b
    same p = cc

-- Whatever arrives on the socket and whatever happens to it, a call returns a result only if the
-- first line of what has arrived is a response of success to its own request id with this result.
pub call_steps-Own :
    (parse : Parser) (request_id : String) (es : List CallEvent) (result : Fields)
    → (call_steps parse request_id (record { buffer = []; settled = none }) es).settled
      ≡ some (ok result)
    → (line : Units) × (first_line (arrived es) ≡ some line) × Own parse request_id line result
call_steps-Own parse request_id es result =
    Fine-Own parse request_id (arrived es) _ result (steps-Fine parse request_id es [] _ waits)
