-- ===== src/Tests/Settings.antt =====
-- Runs of the reading of settings.
use chatgpt_web_agent.Base.{
  ℕ, ◌≤◌, String, Bool, true, false, Option, none, some, List, [], ◌∷◌, ◌==◌, if◌then◌else◌, Result,
  ok, err, ◌≡◌, refl, arith,
}
use chatgpt_web_agent.Config.{BridgeConfig}
use chatgpt_web_agent.Config.Readers.{
  Environment, Host, Stat, read_positive_integer, read_gateway_token, trimmed,
}
use chatgpt_web_agent.Config.Load.{load_bridge_config}
use chatgpt_web_agent.Config.Bounds.{Bounded, load-Bounded}
use chatgpt_web_agent.Config.Token.{Source, read_gateway_token-Source}
use chatgpt_web_agent.Config.Integers.{read-decimal}
use chatgpt_web_agent.Json.{decimal}

abbrev machine : Host
machine = record {
  resolve = λ p. p;
  join = λ parts. "/home/u/joined";
  lstat = λ p. ok (record { is_file = true; is_symbolic_link = false; mode = 33152 });
  read_file = λ p. ok "secret\n";
  is_windows = false;
  uid = some 1000;
  tmpdir = "/tmp";
  homedir = "/home/u";
  cwd = "/home/u/work";
}

abbrev environment : Environment
environment name =
    if name == "CHATGPT_WEB_AGENT_GATEWAY_TOKEN_FILE"
    then some "/home/u/token"
    else if name == "CHATGPT_WEB_AGENT_FEISHU_ENABLED"
    then some "true"
    else none

read-decimal_example : read_positive_integer (some (decimal 65536)) 8 ≡ ok 65536
read-decimal_example = read-decimal 65536 8 (omega arith) (omega arith)

read_gateway_token-Source_example :
    Source machine
      (trimmed (environment "CHATGPT_WEB_AGENT_GATEWAY_TOKEN"))
      (trimmed (environment "CHATGPT_WEB_AGENT_GATEWAY_TOKEN_FILE"))
      (some "secret")
unfolding read_gateway_token trimmed chatgpt_web_agent.Config.Readers.token_from
    chatgpt_web_agent.Base.trim chatgpt_web_agent.Config.Readers.read_token_file
    chatgpt_web_agent.Config.Readers.open_to_others
read_gateway_token-Source_example =
    read_gateway_token-Source machine environment (some "secret") refl

abbrev settings : BridgeConfig
settings = record {
  workspace_dir = "/home/u/work";
  workspace_only = true;
  tool_allowlist = "read" ∷ "exec" ∷ "process" ∷ "apply_patch" ∷ "rescue_exec" ∷ [];
  max_output_chars = 100_000;
  request_ledger = record {
    enabled = true;
    directory = "/home/u/joined";
    retention_days = 7;
    max_bytes = 67_108_864;
  };
  full_trace = record {
    enabled = true;
    directory = "/home/u/joined";
    retention_days = 7;
    max_bytes = 2_147_483_648;
  };
  exec_runtime = record { socket_path = "/home/u/joined"; request_timeout_ms = 150_000 };
  exec_security = none;
  exec_ask = none;
  google_drive = none;
  skills = some (record {
    agent_id = "chatgpt-web-agent";
    gateway_url = "ws://127.0.0.1:18789";
    gateway_token = some "secret";
    catalog_dir = "/home/u/joined";
    qmd_url = none;
    qmd_collection = "skills-chatgpt-web-agent";
    default_limit = 8;
    max_limit = 20;
    request_timeout_ms = 10_000;
    max_skill_file_bytes = 256_000;
  });
  feishu = some (record {
    agent_id = "chatgpt-web-agent";
    account_id = "chatgpt-web-agent";
    gateway_url = "ws://127.0.0.1:18789";
    gateway_token = some "secret";
    request_timeout_ms = 10_000;
    media_root = "/home/u/work";
    media_root_only = true;
    default_directory_limit = 20;
    max_directory_limit = 100;
  });
}

loads : load_bridge_config machine environment ≡ ok settings
unfolding load_bridge_config read_gateway_token chatgpt_web_agent.Config.Readers.token_from trimmed
    chatgpt_web_agent.Base.trim chatgpt_web_agent.Config.Readers.read_token_file
    chatgpt_web_agent.Config.Readers.open_to_others chatgpt_web_agent.Config.Readers.requested_tools
    chatgpt_web_agent.Config.Readers.trim_names chatgpt_web_agent.Config.Readers.split_from
    chatgpt_web_agent.Config.Readers.read_boolean chatgpt_web_agent.Config.Load.load_google_drive
    chatgpt_web_agent.Config.Load.load_limits read_positive_integer
    chatgpt_web_agent.Config.Load.load_skills chatgpt_web_agent.Config.Readers.same_codes
    chatgpt_web_agent.Config.Readers.to_lower chatgpt_web_agent.Config.Load.load_feishu
    chatgpt_web_agent.Base.is_blank chatgpt_web_agent.Base.is_space
    chatgpt_web_agent.Config.Load.load_exec_runtime chatgpt_web_agent.Config.Load.load_full_trace
    chatgpt_web_agent.Config.Load.load_request_ledger
    chatgpt_web_agent.Config.Readers.default_exec_runtime_socket
    chatgpt_web_agent.Config.Readers.default_full_trace_dir
    chatgpt_web_agent.Config.Readers.default_request_ledger_dir
    chatgpt_web_agent.Config.Readers.default_state_root
    chatgpt_web_agent.Config.Readers.digits_value chatgpt_web_agent.Config.Readers.exec_ask_named
    chatgpt_web_agent.Config.Readers.exec_security_named chatgpt_web_agent.Config.Readers.is_digit
    chatgpt_web_agent.Config.Readers.parse_digits chatgpt_web_agent.Config.Readers.parse_int
    chatgpt_web_agent.Config.Readers.parse_signed chatgpt_web_agent.Config.Readers.positive
    chatgpt_web_agent.Config.Readers.read_enum chatgpt_web_agent.Config.Readers.socket_below
    chatgpt_web_agent.Config.Readers.state_below decimal chatgpt_web_agent.Json.decimal_from
loads = refl

load-Bounded_example : Bounded settings
load-Bounded_example = load-Bounded machine environment settings loads
