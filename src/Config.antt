-- ===== src/Config.antt =====
-- app/core/config.py: the settings.
pub mod Validators
pub mod Csv
pub mod Checks
pub mod Production
use smart_auth_with_kubernat.Prelude.{ℕ, String, Bool, Option, List}

pub record Settings : Type 0 where
  pub app_name : String
  pub app_env : String
  pub debug : Bool
  pub api_v1_prefix : String
  pub secret_key : String
  pub log_level : String
  pub jwt_algorithm : String
  pub access_token_expire_minutes : ℕ
  pub refresh_token_expire_days : ℕ
  pub database_url : String
  pub redis_url : String
  pub public_backend_url : String
  pub cors_origins : List String
  pub prometheus_public_url : Option String
  pub grafana_public_url : Option String
  pub rate_limit_auth_requests : ℕ
  pub rate_limit_auth_window_seconds : ℕ
  pub rate_limit_fail_closed : Bool
  pub trust_proxy_headers : Bool
  pub trusted_proxy_cidrs : List String
  pub google_client_id : String
  pub google_client_secret : String
  pub github_client_id : String
  pub github_client_secret : String
