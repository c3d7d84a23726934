-- ===== src/Feishu/Requests.antt =====
-- The requests of both tools of src/backend/feishu.ts, and the bots that the directory shows.
use chatgpt_web_agent.Base.{
  ℕ, suc, ◌+◌, ◌≤◌, String, Bool, true, false, Option, none, some, List, [], ◌∷◌, length, ◌==◌, leb,
  is_some, if-cases, Result, ok, err, raise_if, or_raise, Ensures, returns, throws, Ensures-bind,
  Ensures-then, ◌≡◌, refl, ap, sym, eq_iff, ◌⊎◌, inl, inr, arith, Bool-cases,
}
use chatgpt_web_agent.Json.{Fields, str, lookup_field}
use chatgpt_web_agent.Config.{FeishuConfig}
use chatgpt_web_agent.Tools.{CallToolResult}
use chatgpt_web_agent.Tools.Arguments.{string_arg}
use chatgpt_web_agent.Feishu.{
  Account, Deps, Called, message_action, is_open_id, validate_chat_target, assert_fixed_identity,
}
use chatgpt_web_agent.Feishu.Message.{Message, send_prepared, send_message}
use chatgpt_web_agent.Feishu.Entries.{
  Bot, bot_found, add_bot, collect_bots, normalize_bot_entries, trimmed, query_text, not_off,
}
use chatgpt_web_agent.Feishu.Directory.{
  groups, peers, members, bots, Kind, Query, read_query, prepare_members, prepare_list,
  no_member_args, ask, ask_members, by_kind, directory_query, directory, call_tool, answered,
}
use chatgpt_web_agent.Feishu.Safety.{IsFixed, fixed}
use chatgpt_web_agent.Feishu.Sendable.{Sendable, prepare-Sendable}

-- No request, or one that is made for the configured account.
data Fixed (config : FeishuConfig) (deps : Deps) : List (String × Fields) → Type 0 where
  silent : Fixed config deps []
  one : {r : String × Fields} → IsFixed config deps → Fixed config deps (r ∷ [])

members-prepared :
    (config : FeishuConfig) (deps : Deps) (args : Fields) (q : Query)
    → Ensures (λ _. IsFixed config deps) (prepare_members config deps args q)
unfolding prepare_members
members-prepared config deps args q = Ensures-bind (raise_if (is_some q.query) _) _ λ _ _.
    Ensures-bind (string_arg args "target" true) _ λ given _.
      Ensures-bind (or_raise given "target is required") _ λ target _.
        Ensures-bind (validate_chat_target target) _ λ chat_id _.
          Ensures-bind (string_arg args "pageToken" false) _ λ page_token _.
            Ensures-then (assert_fixed_identity config deps) _ (fixed config deps)
              λ _ who. returns who

list-prepared :
    (config : FeishuConfig) (deps : Deps) (args : Fields) (q : Query)
    → Ensures (λ _. IsFixed config deps) (prepare_list config deps args q)
unfolding prepare_list
list-prepared config deps args q = Ensures-bind (no_member_args args) _ λ _ _.
    Ensures-then (assert_fixed_identity config deps) _ (fixed config deps) λ _ who. returns who

ask-Fixed :
    (config : FeishuConfig) (deps : Deps) (action : String) (params : Result Fields)
    (tell : Fields → Fields)
    → Ensures (λ _. IsFixed config deps) params
    → Fixed config deps (ask deps action params tell).0
unfolding ask
ask-Fixed config deps action _ tell (returns who) = one who
ask-Fixed config deps action _ tell throws = silent

ask_members-Fixed :
    (config : FeishuConfig) (deps : Deps) (prepared : Result (String × Fields))
    → Ensures (λ _. IsFixed config deps) prepared
    → Fixed config deps (ask_members config deps prepared).0
unfolding ask_members ask
ask_members-Fixed config deps _ (returns {a = (target, params)} who) = one who
ask_members-Fixed config deps _ throws = silent

by_kind-Fixed :
    (config : FeishuConfig) (deps : Deps) (args : Fields) (q : Query) (kind : Kind)
    → Fixed config deps (by_kind config deps args q kind).0
unfolding by_kind
by_kind-Fixed config deps args q members =
    ask_members-Fixed config deps _ (members-prepared config deps args q)
by_kind-Fixed config deps args q bots = silent
by_kind-Fixed config deps args q groups =
    ask-Fixed config deps _ _ _ (list-prepared config deps args q)
by_kind-Fixed config deps args q peers =
    ask-Fixed config deps _ _ _ (list-prepared config deps args q)

directory-Fixed :
    (config : FeishuConfig) (deps : Deps) (args : Fields) (q : Result Query)
    → Fixed config deps (directory_query config deps args q).0
unfolding directory_query
directory-Fixed config deps args (err e) = silent
directory-Fixed config deps args (ok q) = by_kind-Fixed config deps args q q.kind

prepared-Fixed :
    (config : FeishuConfig) (deps : Deps) (args : Fields) (r : Result Message)
    → Ensures (Sendable config deps args) r
    → Fixed config deps (send_prepared config deps r).0
unfolding send_prepared
prepared-Fixed config deps args _ (returns h) = one h.sender_fixed
prepared-Fixed config deps args _ throws = silent

answered-Fixed :
    (config : FeishuConfig) (deps : Deps) (name : String) (c : Called)
    → Fixed config deps c.0
    → Fixed config deps (answered name c).0
answered-Fixed config deps name (log, r) h = h

call-Fixed :
    (config : FeishuConfig) (deps : Deps) (name : String) (args : Fields)
    → Fixed config deps (call_tool config deps name args).0
unfolding call_tool send_message directory
call-Fixed config deps name args =
    if-cases (λ (c : List (String × Fields) × CallToolResult Fields). Fixed config deps c.0)
      (name == "feishu_message") _ _
      (λ _.
        answered-Fixed config deps name (send_message config deps args)
          (prepared-Fixed config deps args _ (prepare-Sendable config deps args)))
      λ _.
        if-cases (λ (c : List (String × Fields) × CallToolResult Fields). Fixed config deps c.0)
          (name == "feishu_directory") _ _
          (λ _.
            answered-Fixed config deps name (directory config deps args)
              (directory-Fixed config deps args (read_query config args)))
          λ _. silent

-- Whatever tool is called with whatever arguments, `requestAction` is called once at most, and not at
-- all unless the gateway, asked for its accounts, has told that the configured one is there,
-- configured and not disabled; the request that the call makes of the gateway names this account.
pub call_tool-IsFixed :
    (config : FeishuConfig) (deps : Deps) (name uuid : String) (args : Fields)
    (request : String × Fields) (rest : List (String × Fields))
    → (call_tool config deps name args).0 ≡ request ∷ rest
    → (rest ≡ [])
      × ((who : IsFixed config deps) × (lookup_field "accountId"
              (message_action config uuid request)
            ≡ str who.account.account_id))
unfolding message_action lookup_field
call_tool-IsFixed config deps name uuid args request rest =
    fixed-inv _ (call-Fixed config deps name args)
  where
    fixed-inv :
        (log : List (String × Fields))
        → Fixed config deps log
        → log ≡ request ∷ rest
        → (rest ≡ [])
          × ((who : IsFixed config deps) × (lookup_field "accountId"
                  (message_action config uuid request)
                ≡ str who.account.account_id))
    fixed-inv _ silent e = absurd (cc e)
    fixed-inv _ (one who) e = (
      cc e,
      (who, ap str (sym ((eq_iff who.account.account_id config.account_id).0 who.same_account))),
    )

-- The accounts that may be shown as bots: configured, not disabled, and with an open id that their
-- probe has found.
abbrev pub Shown : Bot → List Account → Type 0
Shown b [] = ⊥
Shown b (a ∷ accounts) =
    ((b.account_id ≡ a.account_id)
      × (a.configured ≡ true)
      × (a.probe_ok ≡ true)
      × ((a.enabled ≡ none) ⊎ (a.enabled ≡ some true))
      × (trimmed a.bot_open_id ≡ some b.open_id)
      × (is_open_id b.open_id ≡ true))
    ⊎ Shown b accounts

abbrev pub AllShown : List Bot → List Account → Type 0
AllShown [] accounts = Unit
AllShown (b ∷ bs) accounts = Shown b accounts × AllShown bs accounts

enabled-on : (o : Option Bool) → not_off o ≡ true → (o ≡ none) ⊎ (o ≡ some true)
enabled-on none e = inl refl
enabled-on (some true) e = inr refl
enabled-on (some false) e = absurd (cc e)

bot_found-Shown :
    (deps : Deps) (query : String) (a : Account) (o : Option String) (b : Bot)
    → bot_found deps query a o ≡ some b
    → (b.account_id ≡ a.account_id)
      × (a.configured ≡ true)
      × (a.probe_ok ≡ true)
      × (not_off a.enabled ≡ true)
      × (o ≡ some b.open_id)
      × (is_open_id b.open_id ≡ true)
unfolding bot_found
bot_found-Shown deps query a none b e = absurd (cc e)
bot_found-Shown deps query a (some open_id) b e = ground arith

AllShown-later :
    (a : Account) (bs : List Bot) (accounts : List Account)
    → AllShown bs accounts
    → AllShown bs (a ∷ accounts)
AllShown-later a [] accounts h = tt
AllShown-later a (b ∷ bs) accounts h = (inr h.0, AllShown-later a bs accounts h.1)

abbrev Held : ℕ → ℕ → List Account → List Bot → Type 0
Held limit count accounts bs = (count + length bs ≤ limit) × AllShown bs accounts

add_bot-Held :
    (limit count : ℕ) (a : Account) (accounts : List Account) (found : Option Bot)
    (rest : ℕ → List Bot)
    → suc count ≤ limit
    → ((b : Bot) → found ≡ some b → Shown b (a ∷ accounts))
    → ((n : ℕ) → suc n ≤ limit → Held limit n accounts (rest n))
    → Held limit count (a ∷ accounts) (add_bot limit count found rest)
unfolding add_bot
add_bot-Held limit count a accounts none rest room shown k =
    let h : Held limit count accounts (rest count) = k count room in
    (h.0, AllShown-later a (rest count) accounts h.1)
add_bot-Held limit count a accounts (some b) rest room shown k =
    elim (Bool-cases (leb limit (suc count))) [
      | inl full ↦ rw full (omega arith, (shown b refl, tt))
      | inr more ↦ rw more (
          let h : Held limit (suc count) accounts (rest (suc count)) =
            k (suc count) (ground arith) in
          (omega (arith, h.0), (shown b refl, AllShown-later a (rest (suc count)) accounts h.1)))
    ]

collect_bots-Held :
    (deps : Deps) (query : String) (limit count : ℕ) (accounts : List Account)
    → suc count ≤ limit
    → Held limit count accounts (collect_bots deps query limit count accounts)
unfolding collect_bots
collect_bots-Held deps query limit count [] room = (omega arith, tt)
collect_bots-Held deps query limit count (a ∷ accounts) room =
    add_bot-Held limit count a accounts (bot_found deps query a (trimmed a.bot_open_id)) _ room
      (λ b e.
        let h : (b.account_id ≡ a.account_id)
            × (a.configured ≡ true)
            × (a.probe_ok ≡ true)
            × (not_off a.enabled ≡ true)
            × (trimmed a.bot_open_id ≡ some b.open_id)
            × (is_open_id b.open_id ≡ true) =
          bot_found-Shown deps query a (trimmed a.bot_open_id) b e in
        inl (h.0, h.1, h.2, enabled-on a.enabled h.3, h.4, h.5))
      λ n more. collect_bots-Held deps query limit n accounts more

-- The directory shows no more bots than the limit, and each is an account of the gateway that is
-- configured and not disabled and whose probe succeeded with an open id, which is the bot's.
pub normalize_bots-Shown :
    (deps : Deps) (accounts : List Account) (query : Option String) (limit : ℕ)
    → 1 ≤ limit
    → (length (normalize_bot_entries deps accounts query limit) ≤ limit)
      × AllShown (normalize_bot_entries deps accounts query limit) accounts
unfolding normalize_bot_entries
normalize_bots-Shown deps accounts query limit low =
    let h : Held limit 0 accounts (normalize_bot_entries deps accounts query limit) =
      collect_bots-Held deps (query_text deps query) limit 0 accounts (omega arith) in
    (omega (arith, h.0), h.1)
