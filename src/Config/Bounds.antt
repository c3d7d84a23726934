-- ===== src/Config/Bounds.antt =====
-- What holds of every configuration that `loadBridgeConfig` (src/config.ts) returns.
use chatgpt_web_agent.Base.{
  ℕ, ◌≤◌, String, trim, Bool, true, false, Option, none, some, List, [], ◌∷◌, ◌==◌, ltb, nat_eq, ok,
  err, Ensures, returns, throws, Ensures-bind, Ensures-then, Ensures-if, Ensures-inv, ◌≡◌, arith,
  Bool-cases, inl, inr, get_or_else,
}
use chatgpt_web_agent.Config.{BridgeConfig, SkillsConfig, FeishuConfig}
use chatgpt_web_agent.Config.Readers.{
  Environment, Host, Parsed, not_a_number, plus, minus, positive, parse_int, read_positive_integer,
  read_enum, exec_security_named, exec_ask_named, requested_tools, trim_names, split_from,
  default_tools, read_gateway_token, max_safe_integer,
}
use chatgpt_web_agent.Config.Load.{
  load_google_drive, load_limits, load_skills, load_feishu, load_request_ledger, load_full_trace,
  load_exec_runtime, load_bridge_config, boolean_setting,
}

-- A positive integer that a double holds exactly.
abbrev pub InRange : ℕ → Type 0
InRange n = (1 ≤ n) × (n ≤ max_safe_integer)

positive-InRange : (s : String) (p : Parsed) → Ensures InRange (positive s p)
unfolding positive
positive-InRange s (plus n) = elim (Bool-cases (nat_eq n 0)) [
  | inl z ↦ rw z throws
  | inr z ↦ rw z (elim (Bool-cases (ltb max_safe_integer n)) [
    | inl big ↦ rw big throws
    | inr fits ↦ rw fits (returns (ground arith))
  ])
]
positive-InRange s (minus n) = throws
positive-InRange s not_a_number = throws

pub read-InRange :
    (value : Option String) (fallback : ℕ)
    → InRange fallback
    → Ensures InRange (read_positive_integer value fallback)
unfolding read_positive_integer
read-InRange none fallback h = returns h
read-InRange (some s) fallback h =
    Ensures-if (s == "") _ _ (λ _. returns h) λ _. positive-InRange s (parse_int s)

-- The names of tools: at least one, each trimmed of what surrounds it and not empty.
abbrev pub Names : List String → Type 0
Names [] = Unit
Names (s ∷ ss) = ((s == "") ≡ false) × Names ss

trim_names-Names : (parts : List String) → Names (trim_names parts)
unfolding trim_names
trim_names-Names [] = tt
trim_names-Names (s ∷ ss) = elim (Bool-cases (trim s == "")) [
  | inl e ↦ rw e (trim_names-Names ss)
  | inr e ↦ rw e (e, trim_names-Names ss)
]

abbrev pub IsNonempty : List String → Type 0
IsNonempty [] = ⊥
IsNonempty (_ ∷ _) = Unit

requested_tools-Names :
    (setting : Option String) → Ensures (λ l. IsNonempty l × Names l) (requested_tools setting)
unfolding requested_tools
requested_tools-Names setting =
    named (trim_names (split_from "" (get_or_else setting default_tools)))
      (trim_names-Names (split_from "" (get_or_else setting default_tools)))
  where
    named :
        (l : List String)
        → Names l
        → Ensures
            (λ m. IsNonempty m × Names m)
            (elim l [
              | [] ↦ err "CHATGPT_WEB_AGENT_TOOLS must contain at least one tool name"
              | name ∷ names ↦ ok (name ∷ names)
            ])
    named [] h = throws
    named (name ∷ names) h = returns (tt, h)

abbrev pub Limits : ℕ → ℕ → Type 0
Limits default_limit max_limit =
    InRange default_limit × InRange max_limit × (default_limit ≤ max_limit)

abbrev pub SkillsBounds : Option SkillsConfig → Type 0
SkillsBounds none = Unit
SkillsBounds (some s) =
    Limits s.default_limit s.max_limit
    × InRange s.request_timeout_ms
    × InRange s.max_skill_file_bytes

abbrev pub FeishuBounds : Option FeishuConfig → Type 0
FeishuBounds none = Unit
FeishuBounds (some f) =
    Limits f.default_directory_limit f.max_directory_limit × InRange f.request_timeout_ms

pub record Bounded (c : BridgeConfig) : Type 0 where
  pub tools : IsNonempty c.tool_allowlist × Names c.tool_allowlist
  pub output : InRange c.max_output_chars
  pub ledger : InRange c.request_ledger.retention_days × InRange c.request_ledger.max_bytes
  pub trace : InRange c.full_trace.retention_days × InRange c.full_trace.max_bytes
  pub runtime : InRange c.exec_runtime.request_timeout_ms
  pub skills : SkillsBounds c.skills
  pub feishu : FeishuBounds c.feishu

module _ (host : Host) (env : Environment) where
  load_limits-Limits :
      (default_name max_name : String) (d m : ℕ)
      → InRange d
      → InRange m
      → Ensures (λ l. Limits l.0 l.1) (load_limits host env default_name max_name d m)
  unfolding load_limits
  load_limits-Limits default_name max_name d m hd hm =
      Ensures-then (read_positive_integer (env default_name) d) _
        (read-InRange (env default_name) d hd)
        λ default_limit dr.
          Ensures-then (read_positive_integer (env max_name) m) _ (read-InRange (env max_name) m hm)
            λ max_limit mr. elim (Bool-cases (ltb max_limit default_limit)) [
              | inl above ↦ rw above throws
              | inr within ↦ rw within (returns (dr, mr, ground arith))
            ]

  skills-SkillsBounds :
      (workspace : String) (token : Option String) (enabled : Bool) (limits : ℕ × ℕ)
      → Limits limits.0 limits.1
      → Ensures SkillsBounds (load_skills host env workspace token enabled limits)
  unfolding load_skills
  skills-SkillsBounds workspace token false limits h = returns tt
  skills-SkillsBounds workspace token true limits h =
      Ensures-then (read_positive_integer (env "CHATGPT_WEB_AGENT_SKILLS_TIMEOUT_MS") 10_000) _
        (read-InRange _ 10_000 (omega arith))
        λ timeout t.
          Ensures-then
            (read_positive_integer (env "CHATGPT_WEB_AGENT_SKILLS_MAX_FILE_BYTES") 256_000) _
            (read-InRange _ 256_000 (omega arith)) λ bytes b. returns (h, t, b)

  feishu-FeishuBounds :
      (workspace : String) (token : Option String) (enabled : Bool) (limits : ℕ × ℕ)
      → Limits limits.0 limits.1
      → Ensures FeishuBounds (load_feishu host env workspace token enabled limits)
  unfolding load_feishu
  feishu-FeishuBounds workspace token false limits h = returns tt
  feishu-FeishuBounds workspace token true limits h =
      Ensures-then (read_positive_integer (env "CHATGPT_WEB_AGENT_FEISHU_TIMEOUT_MS") 10_000) _
        (read-InRange _ 10_000 (omega arith))
        λ timeout t.
          Ensures-bind (boolean_setting env "CHATGPT_WEB_AGENT_FEISHU_MEDIA_ROOT_ONLY" true) _
            λ root_only _. returns (h, t)

  ledger-bounds :
      Ensures (λ l. InRange l.retention_days × InRange l.max_bytes) (load_request_ledger host env)
  unfolding load_request_ledger
  ledger-bounds =
      Ensures-bind (boolean_setting env "CHATGPT_WEB_AGENT_REQUEST_LEDGER_ENABLED" true) _
        λ enabled _.
          Ensures-then
            (read_positive_integer (env "CHATGPT_WEB_AGENT_REQUEST_LEDGER_RETENTION_DAYS") 7) _
            (read-InRange _ 7 (omega arith))
            λ days d.
              Ensures-then
                (read_positive_integer (env "CHATGPT_WEB_AGENT_REQUEST_LEDGER_MAX_BYTES")
                  67_108_864)
                _ (read-InRange _ 67_108_864 (omega arith)) λ bytes b. returns (d, b)

  trace-bounds :
      Ensures (λ l. InRange l.retention_days × InRange l.max_bytes) (load_full_trace host env)
  unfolding load_full_trace
  trace-bounds =
      Ensures-bind (boolean_setting env "CHATGPT_WEB_AGENT_FULL_TRACE_ENABLED" true) _ λ enabled _.
        Ensures-then (read_positive_integer (env "CHATGPT_WEB_AGENT_FULL_TRACE_RETENTION_DAYS") 7) _
          (read-InRange _ 7 (omega arith))
          λ days d.
            Ensures-then
              (read_positive_integer (env "CHATGPT_WEB_AGENT_FULL_TRACE_MAX_BYTES") 2_147_483_648) _
              (read-InRange _ 2_147_483_648 (omega arith)) λ bytes b. returns (d, b)

  runtime-bounds : Ensures (λ r. InRange r.request_timeout_ms) (load_exec_runtime host env)
  unfolding load_exec_runtime
  runtime-bounds =
      Ensures-then (read_positive_integer (env "CHATGPT_WEB_AGENT_EXEC_RUNTIME_TIMEOUT_MS") 150_000)
        _ (read-InRange _ 150_000 (omega arith)) λ timeout t. returns t

  load-bounds : Ensures Bounded (load_bridge_config host env)
  unfolding load_bridge_config
  load-bounds = Ensures-bind (read_gateway_token host env) _ λ token _.
      Ensures-then (requested_tools (env "CHATGPT_WEB_AGENT_TOOLS")) _ (requested_tools-Names _)
        λ tools t.
          Ensures-bind (boolean_setting env "CHATGPT_WEB_AGENT_DRIVE_ENABLED" false) _ λ drive _.
            Ensures-bind (load_google_drive host env _ drive) _ λ google_drive _.
              Ensures-bind (boolean_setting env "CHATGPT_WEB_AGENT_SKILLS_ENABLED" true) _
                λ skills_on _.
                  Ensures-then
                    (load_limits host env "CHATGPT_WEB_AGENT_SKILLS_DEFAULT_LIMIT"
                      "CHATGPT_WEB_AGENT_SKILLS_MAX_LIMIT" 8 20)
                    _ (load_limits-Limits _ _ 8 20 (omega arith) (omega arith))
                    λ skills_limits sl.
                      Ensures-then (load_skills host env _ token skills_on skills_limits) _
                        (skills-SkillsBounds _ token skills_on skills_limits sl)
                        λ skills s.
                          Ensures-bind
                            (boolean_setting env "CHATGPT_WEB_AGENT_FEISHU_ENABLED" false) _
                            λ feishu_on _.
                              Ensures-then
                                (load_limits host env
                                  "CHATGPT_WEB_AGENT_FEISHU_DIRECTORY_DEFAULT_LIMIT"
                                  "CHATGPT_WEB_AGENT_FEISHU_DIRECTORY_MAX_LIMIT" 20 100)
                                _ (load_limits-Limits _ _ 20 100 (omega arith) (omega arith))
                                λ feishu_limits fl.
                                  Ensures-then
                                    (load_feishu host env _ token feishu_on feishu_limits) _
                                    (feishu-FeishuBounds _ token feishu_on feishu_limits fl)
                                    λ feishu f.
                                      Ensures-bind
                                        (boolean_setting env "CHATGPT_WEB_AGENT_WORKSPACE_ONLY"
                                          true)
                                        _
                                        λ only _.
                                          Ensures-then
                                            (read_positive_integer
                                              (env "CHATGPT_WEB_AGENT_MAX_OUTPUT_CHARS") 100_000)
                                            _ (read-InRange _ 100_000 (omega arith))
                                            λ chars c.
                                              Ensures-then (load_request_ledger host env) _
                                                ledger-bounds
                                                λ ledger l.
                                                  Ensures-then (load_full_trace host env) _
                                                    trace-bounds
                                                    λ trace r.
                                                      Ensures-then (load_exec_runtime host env) _
                                                        runtime-bounds
                                                        λ runtime u.
                                                          Ensures-bind
                                                            (read_enum
                                                            (env "CHATGPT_WEB_AGENT_EXEC_SECURITY")
                                                            exec_security_named)
                                                            _
                                                            λ security _.
                                                            Ensures-bind
                                                            (read_enum
                                                            (env "CHATGPT_WEB_AGENT_EXEC_ASK")
                                                            exec_ask_named)
                                                            _
                                                            λ ask _. returns (record {
                                                            tools = t;
                                                            output = c;
                                                            ledger = l;
                                                            trace = r;
                                                            runtime = u;
                                                            skills = s;
                                                            feishu = f;
                                                            })

  -- Whatever the environment holds, a configuration that is loaded has a tool, and no tool without a
  -- name; each of its numbers is a positive integer of at most 2^53 - 1; and the default limits of
  -- the skills and of the Feishu directory do not exceed their maxima.
  pub load-Bounded : (c : BridgeConfig) → load_bridge_config host env ≡ ok c → Bounded c
  load-Bounded c e = Ensures-inv load-bounds e
