-- ===== src/Multitenancy.antt =====
-- modules/multitenancy/module.go: which handler gets a request. `split_host_port` is the host of
-- `net.SplitHostPort`, none where it fails; the tenants and their databases are lookups, none where they
-- fail or find nothing; `allow_origin` is what the referer's URL gives for a host.
pub mod Splitting
mod Tests
use tracks.Common.{
  ℕ, String, Bool, Option, none, some, List, if◌then◌else◌, ◌==◌, string_eq, contains,
}
use Prim.Native.String.{◌++◌}
use tracks.Common.Text.{has_suffix, trim_suffix}

pub record Tenant : Type 0 where
  pub id : ℕ
  pub active : Bool

pub record Splitter (D : Type 0) : Type 0 where
  pub by_subdomain : String → Option Tenant
  pub by_custom_domain : String → Option Tenant
  pub tenant_db : ℕ → Option D
  pub base_domain : String
  pub secure : Bool
  pub root_subdomains : List String

-- What happens to a request: the root handler, with the origin that the response allows, an error, a
-- redirect, or the handler of the tenants, with the tenant, the subdomain and the database in its context.
pub data Target (D : Type 0) : Type 0 where
  to_root : Option String → Target D
  to_error : (message : String) (code : ℕ) → Target D
  to_redirect : (url : String) → Target D
  to_tenant : Tenant → (subdomain : String) → D → Target D

module _ {D : Type 0} where
  abbrev pub without_tenant : String → Option String → Target D
  without_tenant subdomain allow_origin =
      if subdomain == "" then to_root allow_origin else to_error "Not found" 404

  abbrev pub with_database : Tenant → String → Option D → Target D
  with_database tenant subdomain none = to_error "Failed to connect to database" 500
  with_database tenant subdomain (some db) = to_tenant tenant subdomain db

  abbrev pub pending_activation : Splitter D → Target D
  pending_activation s = to_redirect (
      (if s.secure then "https" else "http") ++ ("://" ++ (s.base_domain ++ "/pending-activation")))

module _ (split_host_port : String → Option String) where
  -- `h, _, err := net.SplitHostPort(host); if err != nil { h = host }`
  unfoldable pub host_name : String → String
  host_name host = elim (split_host_port host) [ none ↦ host | some h ↦ h ]

  unfoldable pub extract_subdomain : String → String → String
  unfolding host_name
  extract_subdomain host base_domain =
      let h = host_name host in
      let bh = host_name base_domain in
      if h == bh then "" else if has_suffix h ("." ++ bh) then trim_suffix h ("." ++ bh) else ""

  -- The subdomain, "" for those that stand for the root.
  unfoldable pub tenant_subdomain : List String → String → String → String
  unfolding extract_subdomain
  tenant_subdomain roots host base_domain =
      let subdomain = extract_subdomain host base_domain in
      if contains subdomain roots then "" else subdomain

  module _ {D : Type 0} where
    abbrev pub find_tenant : Splitter D → String → String → Option Tenant
    find_tenant s host subdomain =
        if subdomain == "" then s.by_custom_domain (host_name host) else s.by_subdomain subdomain

    -- The rest of the handler, once the subdomain is known.
    unfoldable pub dispatch : Splitter D → (host subdomain : String) → Option String → Target D
    unfolding host_name
    dispatch s host subdomain allow_origin = elim (find_tenant s host subdomain) [
      | none ↦ without_tenant subdomain allow_origin
      | some tenant ↦
          if tenant.active
          then with_database tenant subdomain (s.tenant_db tenant.id)
          else pending_activation s
    ]

    unfoldable pub serve_http : Splitter D → String → Option String → Target D
    unfolding tenant_subdomain dispatch
    serve_http s host allow_origin =
        dispatch s host (tenant_subdomain s.root_subdomains host s.base_domain) allow_origin
