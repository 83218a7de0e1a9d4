-- ===== src/AuthScope.antt =====
-- crates/api/src/auth/scope.rs: which requests need a credential.
pub mod Routes
use Prim.Native.String.{◌++◌}
use invokr.Base.{String, Bool, true, false, ◌||◌, is_some, str_eq, if◌then◌else◌}
use invokr.Base.Text.{strip_prefix}

pub data InvokrScope : Type 0 where
  public protected : InvokrScope

abbrev pub is_public : InvokrScope → Bool
is_public public = true
is_public protected = false

pub record InvokrScopes : Type 0 where
  pub path_prefix : String
  pub dashboard_prefix : String

abbrev pub callback_path : String → String
callback_path path_prefix = path_prefix ++ "/oidc/login"

-- `starts_with`.
abbrev pub starts_with : String → String → Bool
starts_with p s = is_some (strip_prefix p s)

unfoldable pub resolve_scope : InvokrScopes → String → InvokrScope
resolve_scope scopes path =
    let api = scopes.path_prefix in
    if str_eq path (api ++ "/health")
      || str_eq path (api ++ "/metrics")
      || str_eq path (callback_path api)
      || starts_with (scopes.dashboard_prefix ++ "/pkg/") path
    then public
    else protected
