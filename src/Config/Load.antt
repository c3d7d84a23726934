-- ===== src/Config/Load.antt =====
-- `loadBridgeConfig` of src/config.ts: the parts in the order in which the code reads them.
use chatgpt_web_agent.Base.{
  ℕ, String, ◌<>◌, Bool, true, false, Option, none, some, [], ◌∷◌, ltb, Result, ok, raise_if, ◌>>=◌,
  ◌>>◌,
}
use chatgpt_web_agent.Config.{
  BridgeConfig, RequestLedgerConfig, FullTraceConfig, ExecRuntimeConfig, GoogleDriveConfig,
  SkillsConfig, FeishuConfig,
}
use chatgpt_web_agent.Config.Readers.{
  Environment, Host, trimmed, read_boolean, read_positive_integer, read_enum, exec_security_named,
  exec_ask_named, requested_tools, read_gateway_token, setting_or, default_exec_runtime_socket,
  default_full_trace_dir, default_request_ledger_dir,
}

-- `readBoolean(env.NAME, fallback, 'NAME')`
abbrev pub boolean_setting : Environment → String → Bool → Result Bool
boolean_setting env name fallback = read_boolean (env name) fallback name

module _ (host : Host) (env : Environment) where
  -- A path that a setting gives, or a default.
  abbrev pub path_setting : String → String → String
  path_setting name fallback = host.resolve (setting_or env name fallback)

  -- `googleDrive`
  unfoldable pub load_google_drive : String → Bool → Result (Option GoogleDriveConfig)
  load_google_drive workspace false = ok none
  load_google_drive workspace true = do
    root_only ← boolean_setting env "CHATGPT_WEB_AGENT_DRIVE_LOCAL_ROOT_ONLY" true
    ok (
        some (record {
          credentials_path =
              path_setting "CHATGPT_WEB_AGENT_DRIVE_CREDENTIALS"
                (host.join (workspace ∷ ".credentials/google-drive/credentials.json" ∷ []));
          token_path =
              path_setting "CHATGPT_WEB_AGENT_DRIVE_TOKEN"
                (host.join (workspace ∷ ".credentials/google-drive/token.json" ∷ []));
          local_root =
              path_setting "CHATGPT_WEB_AGENT_DRIVE_LOCAL_ROOT"
                (host.join (workspace ∷ "exchange" ∷ []));
          local_root_only = root_only;
        }))

  -- The two limits, the default one not above the other.
  unfoldable pub load_limits : String → String → ℕ → ℕ → Result (ℕ × ℕ)
  load_limits default_name max_name default_value max_value = do
    default_limit ← read_positive_integer (env default_name) default_value
    max_limit ← read_positive_integer (env max_name) max_value
    raise_if (ltb max_limit default_limit) (default_name <> " must not exceed " <> max_name)
    ok (default_limit, max_limit)

  -- `skills`
  unfoldable pub load_skills : String → Option String → Bool → ℕ × ℕ → Result (Option SkillsConfig)
  load_skills workspace token false limits = ok none
  load_skills workspace token true limits = do
    timeout ← read_positive_integer (env "CHATGPT_WEB_AGENT_SKILLS_TIMEOUT_MS") 10_000
    bytes ← read_positive_integer (env "CHATGPT_WEB_AGENT_SKILLS_MAX_FILE_BYTES") 256_000
    ok (
        some (record {
          agent_id = setting_or env "CHATGPT_WEB_AGENT_SKILLS_AGENT_ID" "chatgpt-web-agent";
          gateway_url =
              setting_or env "CHATGPT_WEB_AGENT_SKILLS_GATEWAY_URL" "ws://127.0.0.1:18789";
          gateway_token = token;
          catalog_dir =
              path_setting "CHATGPT_WEB_AGENT_SKILLS_CATALOG_DIR"
                (host.join (workspace ∷ "skills-catalog" ∷ []));
          qmd_url = trimmed (env "CHATGPT_WEB_AGENT_SKILLS_QMD_URL");
          qmd_collection =
              setting_or env "CHATGPT_WEB_AGENT_SKILLS_QMD_COLLECTION" "skills-chatgpt-web-agent";
          default_limit = limits.0;
          max_limit = limits.1;
          request_timeout_ms = timeout;
          max_skill_file_bytes = bytes;
        }))

  -- `feishu`
  unfoldable pub load_feishu : String → Option String → Bool → ℕ × ℕ → Result (Option FeishuConfig)
  load_feishu workspace token false limits = ok none
  load_feishu workspace token true limits = do
    timeout ← read_positive_integer (env "CHATGPT_WEB_AGENT_FEISHU_TIMEOUT_MS") 10_000
    root_only ← boolean_setting env "CHATGPT_WEB_AGENT_FEISHU_MEDIA_ROOT_ONLY" true
    ok (
        some (record {
          agent_id = setting_or env "CHATGPT_WEB_AGENT_FEISHU_AGENT_ID" "chatgpt-web-agent";
          account_id = setting_or env "CHATGPT_WEB_AGENT_FEISHU_ACCOUNT_ID" "chatgpt-web-agent";
          gateway_url =
              setting_or env "CHATGPT_WEB_AGENT_FEISHU_GATEWAY_URL" "ws://127.0.0.1:18789";
          gateway_token = token;
          request_timeout_ms = timeout;
          media_root = path_setting "CHATGPT_WEB_AGENT_FEISHU_MEDIA_ROOT" workspace;
          media_root_only = root_only;
          default_directory_limit = limits.0;
          max_directory_limit = limits.1;
        }))

  -- `requestLedger`
  unfoldable pub load_request_ledger : Result RequestLedgerConfig
  load_request_ledger = do
    enabled ← boolean_setting env "CHATGPT_WEB_AGENT_REQUEST_LEDGER_ENABLED" true
    days ← read_positive_integer (env "CHATGPT_WEB_AGENT_REQUEST_LEDGER_RETENTION_DAYS") 7
    bytes ← read_positive_integer (env "CHATGPT_WEB_AGENT_REQUEST_LEDGER_MAX_BYTES") 67_108_864
    ok (record {
      enabled = enabled;
      directory =
          path_setting "CHATGPT_WEB_AGENT_REQUEST_LEDGER_DIR" (default_request_ledger_dir host env);
      retention_days = days;
      max_bytes = bytes;
    })

  -- `fullTrace`
  unfoldable pub load_full_trace : Result FullTraceConfig
  load_full_trace = do
    enabled ← boolean_setting env "CHATGPT_WEB_AGENT_FULL_TRACE_ENABLED" true
    days ← read_positive_integer (env "CHATGPT_WEB_AGENT_FULL_TRACE_RETENTION_DAYS") 7
    bytes ← read_positive_integer (env "CHATGPT_WEB_AGENT_FULL_TRACE_MAX_BYTES") 2_147_483_648
    ok (record {
      enabled = enabled;
      directory = path_setting "CHATGPT_WEB_AGENT_FULL_TRACE_DIR" (default_full_trace_dir host env);
      retention_days = days;
      max_bytes = bytes;
    })

  -- `execRuntime`
  unfoldable pub load_exec_runtime : Result ExecRuntimeConfig
  load_exec_runtime = do
    timeout ← read_positive_integer (env "CHATGPT_WEB_AGENT_EXEC_RUNTIME_TIMEOUT_MS") 150_000
    ok (record {
      socket_path =
          path_setting "CHATGPT_WEB_AGENT_EXEC_RUNTIME_SOCKET"
            (default_exec_runtime_socket host env);
      request_timeout_ms = timeout;
    })

  unfoldable pub load_bridge_config : Result BridgeConfig
  load_bridge_config = do
    let workspace = path_setting "CHATGPT_WEB_AGENT_WORKSPACE" host.cwd
    token ← read_gateway_token host env
    tools ← requested_tools (env "CHATGPT_WEB_AGENT_TOOLS")
    drive_enabled ← boolean_setting env "CHATGPT_WEB_AGENT_DRIVE_ENABLED" false
    google_drive ← load_google_drive workspace drive_enabled
    skills_enabled ← boolean_setting env "CHATGPT_WEB_AGENT_SKILLS_ENABLED" true
    skills_limits ←
        load_limits "CHATGPT_WEB_AGENT_SKILLS_DEFAULT_LIMIT" "CHATGPT_WEB_AGENT_SKILLS_MAX_LIMIT" 8
          20
    skills ← load_skills workspace token skills_enabled skills_limits
    feishu_enabled ← boolean_setting env "CHATGPT_WEB_AGENT_FEISHU_ENABLED" false
    feishu_limits ←
        load_limits "CHATGPT_WEB_AGENT_FEISHU_DIRECTORY_DEFAULT_LIMIT"
          "CHATGPT_WEB_AGENT_FEISHU_DIRECTORY_MAX_LIMIT" 20 100
    feishu ← load_feishu workspace token feishu_enabled feishu_limits
    workspace_only ← boolean_setting env "CHATGPT_WEB_AGENT_WORKSPACE_ONLY" true
    max_output_chars ← read_positive_integer (env "CHATGPT_WEB_AGENT_MAX_OUTPUT_CHARS") 100_000
    request_ledger ← load_request_ledger
    full_trace ← load_full_trace
    exec_runtime ← load_exec_runtime
    exec_security ← read_enum (env "CHATGPT_WEB_AGENT_EXEC_SECURITY") exec_security_named
    exec_ask ← read_enum (env "CHATGPT_WEB_AGENT_EXEC_ASK") exec_ask_named
    ok (record {
      workspace_dir = workspace;
      workspace_only = workspace_only;
      tool_allowlist = tools;
      max_output_chars = max_output_chars;
      request_ledger = request_ledger;
      full_trace = full_trace;
      exec_runtime = exec_runtime;
      exec_security = exec_security;
      exec_ask = exec_ask;
      google_drive = google_drive;
      skills = skills;
      feishu = feishu;
    })
