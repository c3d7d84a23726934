-- ===== src/Feishu/Sendable.antt =====
-- Which messages the Feishu backend (src/backend/feishu.ts) sends.
use chatgpt_web_agent.Base.{
  ◌≤◌, String, true, false, not, ◌&&◌, List, [], ◌∷◌, length, is_some, Result, raise_if, or_raise,
  ok, Ensures, Ensures-inv, returns, throws, Ensures-bind, Ensures-then, ◌≡◌, arith,
}
use chatgpt_web_agent.Json.{Fields, lookup_field}
use chatgpt_web_agent.Config.{FeishuConfig}
use chatgpt_web_agent.Tools.Arguments.{string_arg, boolean_arg}
use chatgpt_web_agent.Feishu.{Deps, is_target, validate_target, assert_fixed_identity}
use chatgpt_web_agent.Feishu.Mentions.{mentions_of, parse_mentions}
use chatgpt_web_agent.Feishu.Message.{
  Message, prepare_message, resolve_optional, action_params, send_prepared, send_message,
}
use chatgpt_web_agent.Feishu.Safety.{
  Distinct, HasMedia, IsFixed, fixed, mentions_of-Distinct, optional-HasMedia,
}

-- A message that was checked, and whose text and mentions are those of the arguments.
pub record Sendable (config : FeishuConfig) (deps : Deps) (args : Fields) (m : Message)
    : Type 0 where
  pub message_given : string_arg args "message" false ≡ ok m.message
  pub mentions_given : parse_mentions args ≡ ok m.mentions
  pub target_valid : is_target m.target ≡ true
  pub mentions_distinct : Distinct [] m.mentions
  pub mentions_few : length m.mentions ≤ 20
  pub media_allowed : HasMedia config deps m.media
  pub sender_fixed : IsFixed config deps

target-checked : (target : String) → Ensures (λ t. is_target t ≡ true) (validate_target target)
unfolding validate_target
target-checked target =
    Ensures-bind (raise_if (not (is_target target)) _) _ λ _ e. returns (ground (arith, e))

pub prepare-Sendable :
    (config : FeishuConfig) (deps : Deps) (args : Fields)
    → Ensures (Sendable config deps args) (prepare_message config deps args)
unfolding prepare_message parse_mentions
prepare-Sendable config deps args = Ensures-bind (string_arg args "target" true) _ λ given _.
    Ensures-bind (or_raise given "target is required") _ λ named _.
      Ensures-then (validate_target named) _ (target-checked named) λ target valid.
        Ensures-bind (string_arg args "message" false) _ λ message said.
          Ensures-bind (mentions_of (lookup_field "mentions" args)) _ λ mentions named_all.
            Ensures-bind (string_arg args "mediaPath" false) _ λ media_path _.
              Ensures-bind (boolean_arg args "asVoice" false) _ λ as_voice _.
                Ensures-bind (raise_if (not (is_some message) && not (is_some media_path)) _) _
                  λ _ _. Ensures-bind (raise_if (as_voice && not (is_some media_path)) _) _ λ _ _.
                    Ensures-then (assert_fixed_identity config deps) _ (fixed config deps) λ _ who.
                      Ensures-then (resolve_optional config deps media_path) _
                        (optional-HasMedia config deps media_path)
                        λ media h. returns (record {
                          message_given = said;
                          mentions_given = named_all;
                          target_valid = valid;
                          mentions_distinct =
                              (Ensures-inv (mentions_of-Distinct (lookup_field "mentions" args))
                                named_all).0;
                          mentions_few =
                              (Ensures-inv (mentions_of-Distinct (lookup_field "mentions" args))
                                named_all).1;
                          media_allowed = h;
                          sender_fixed = who;
                        })

-- The requests of one call of `feishu_message`.
data Sent (config : FeishuConfig) (deps : Deps) (args : Fields)
    : List (String × Fields) → Type 0 where
  nothing : Sent config deps args []
  sent :
      (m : Message)
      → Sendable config deps args m
      → Sent config deps args (("send", action_params m) ∷ [])

send-Sent :
    (config : FeishuConfig) (deps : Deps) (args : Fields) (r : Result Message)
    → Ensures (Sendable config deps args) r
    → Sent config deps args (send_prepared config deps r).0
unfolding send_prepared
send-Sent config deps args _ (returns {a} h) = sent a h
send-Sent config deps args _ throws = nothing

-- A call of `feishu_message` calls `requestAction` once at most, and only to send the message with
-- the text and the mentions of the arguments, whose target has the form of a chat or of a user, whose
-- mentions are at most twenty different open ids, whose media file is a regular one inside the media
-- root where no other is allowed, and whose sender is the configured account, which the gateway told
-- to be configured and not disabled.
pub send_message-Sendable :
    (config : FeishuConfig) (deps : Deps) (args : Fields) (action : String) (params : Fields)
    (rest : List (String × Fields))
    → (send_message config deps args).0 ≡ (action, params) ∷ rest
    → (rest ≡ [])
      × (action ≡ "send")
      × ((m : Message) × (params ≡ action_params m) × Sendable config deps args m)
unfolding send_message
send_message-Sendable config deps args action params rest = sent-inv _ (
    send-Sent config deps args (prepare_message config deps args)
      (prepare-Sendable config deps args))
  where
    sent-inv :
        (log : List (String × Fields))
        → Sent config deps args log
        → log ≡ (action, params) ∷ rest
        → (rest ≡ [])
          × (action ≡ "send")
          × ((m : Message) × (params ≡ action_params m) × Sendable config deps args m)
    sent-inv _ nothing e = absurd (cc e)
    sent-inv _ (sent m h) e = (cc e, cc e, (m, cc e, h))
