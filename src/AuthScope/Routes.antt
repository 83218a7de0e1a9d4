-- ===== src/AuthScope/Routes.antt =====
-- Which routes of crates/api/src/router.rs need a credential (crates/api/src/auth/scope.rs).
use Prim.Native.String.{◌++◌}
use invokr.Base.{
  ◌≡◌, refl, sym, ap, ◌∙◌, inl, inr, String, false, Option, none, some, str_eq, eq_iff, eq_refl,
  Bool-cases,
}
use invokr.Base.Text.{strip_prefix, strip_prefix-append}
use invokr.AuthScope.{InvokrScopes, public, protected, callback_path, starts_with, resolve_scope}

-- Texts after one prefix differ if one of them begins as the other does not.
append-apart :
    (api start rest other : String)
    → strip_prefix start other ≡ none
    → str_eq (api ++ (start ++ rest)) (api ++ other) ≡ false
append-apart api start rest other apart =
    elim (Bool-cases (str_eq (api ++ (start ++ rest)) (api ++ other))) [
      | inr miss ↦ miss
      | inl hit ↦
          let whole : api ++ (start ++ rest) ≡ api ++ other =
            (eq_iff (api ++ (start ++ rest)) (api ++ other)).0 hit in
          let tails : ◌≡◌ {A = Option String} (some (start ++ rest)) (some other) =
            sym (strip_prefix-append api (start ++ rest))
            ∙ ap (strip_prefix api) whole
            ∙ strip_prefix-append api other in
          let tail : start ++ rest ≡ other = cc in
          absurd (
            let q : ◌≡◌ {A = Option String} (some rest) none =
              sym (strip_prefix-append start rest) ∙ ap (strip_prefix start) tail ∙ apart in
            cc)
    ]

-- Every path of the versioned API needs a credential, whatever prefix it is mounted under, where
-- the dashboard's assets are not mounted over it; health, metrics and the login callback need
-- none.
pub resolve_scope_routes :
    (scopes : InvokrScopes) (rest : String)
    → starts_with (scopes.dashboard_prefix ++ "/pkg/") (scopes.path_prefix ++ ("/v1" ++ rest))
      ≡ false
    → (resolve_scope scopes (scopes.path_prefix ++ ("/v1" ++ rest)) ≡ protected)
      × (resolve_scope scopes (scopes.path_prefix ++ "/health") ≡ public)
      × (resolve_scope scopes (scopes.path_prefix ++ "/metrics") ≡ public)
      × (resolve_scope scopes (callback_path scopes.path_prefix) ≡ public)
unfolding resolve_scope strip_prefix
resolve_scope_routes scopes rest assets =
    let api = scopes.path_prefix in
    (
      rw
          (
            append-apart api "/v1" rest "/health" refl,
            append-apart api "/v1" rest "/metrics" refl,
            append-apart api "/v1" rest "/oidc/login" refl,
            assets,
          )
          refl,
      rw (eq_refl (api ++ "/health")) refl,
      rw (append-apart api "/m" "etrics" "/health" refl, eq_refl (api ++ "/metrics")) refl,
      rw
          (
            append-apart api "/o" "idc/login" "/health" refl,
            append-apart api "/o" "idc/login" "/metrics" refl,
            eq_refl (api ++ "/oidc/login"),
          )
          refl,
    )
