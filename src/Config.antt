-- ===== src/Config.antt =====
-- The settings of the service (src/config.ts). The environment is a function from names; the paths,
-- the files and the process are a parameter.
pub mod Readers
pub mod Load
pub mod Bounds
pub mod Token
pub mod Integers
use chatgpt_web_agent.Base.{ℕ, String, Bool, Option, List}

pub record RequestLedgerConfig : Type 0 where
  pub enabled : Bool
  pub directory : String
  pub retention_days : ℕ
  pub max_bytes : ℕ

pub record FullTraceConfig : Type 0 where
  pub enabled : Bool
  pub directory : String
  pub retention_days : ℕ
  pub max_bytes : ℕ

pub record ExecRuntimeConfig : Type 0 where
  pub socket_path : String
  pub request_timeout_ms : ℕ

pub record GoogleDriveConfig : Type 0 where
  pub credentials_path : String
  pub token_path : String
  pub local_root : String
  pub local_root_only : Bool

pub record SkillsConfig : Type 0 where
  pub agent_id : String
  pub gateway_url : String
  pub gateway_token : Option String
  pub catalog_dir : String
  pub qmd_url : Option String
  pub qmd_collection : String
  pub default_limit : ℕ
  pub max_limit : ℕ
  pub request_timeout_ms : ℕ
  pub max_skill_file_bytes : ℕ

pub record FeishuConfig : Type 0 where
  pub agent_id : String
  pub account_id : String
  pub gateway_url : String
  pub gateway_token : Option String
  pub request_timeout_ms : ℕ
  pub media_root : String
  pub media_root_only : Bool
  pub default_directory_limit : ℕ
  pub max_directory_limit : ℕ

pub data ExecSecurity : Type 0 where
  deny allowlist full : ExecSecurity

pub data ExecAsk : Type 0 where
  off on_miss always : ExecAsk

pub record BridgeConfig : Type 0 where
  pub workspace_dir : String
  pub workspace_only : Bool
  pub tool_allowlist : List String
  pub max_output_chars : ℕ
  pub request_ledger : RequestLedgerConfig
  pub full_trace : FullTraceConfig
  pub exec_runtime : ExecRuntimeConfig
  pub exec_security : Option ExecSecurity
  pub exec_ask : Option ExecAsk
  pub google_drive : Option GoogleDriveConfig
  pub skills : Option SkillsConfig
  pub feishu : Option FeishuConfig
