-- ===== src/Multitenancy/Splitting.antt =====
-- Which tenant a request reaches by modules/multitenancy/module.go.
use tracks.Common.{
  String, ◌≡◌, refl, ap, ◌∙◌, ◌≢◌, inl, inr, false, Option, none, some, List, arith, eq_iff,
  if◌then◌else◌, Bool-cases, ◌==◌, string_eq, contains,
}
use Prim.Native.String.{◌++◌, count}
use text.Mathlib.TextLemmas.{length-append}
use tracks.Common.Text.{has_suffix-append, trim_suffix-append}
use tracks.Multitenancy.{
  Tenant, Splitter, to_error, host_name, extract_subdomain, tenant_subdomain, dispatch,
  without_tenant, with_database, pending_activation, serve_http,
}

-- A subdomain stands before a dot, and makes the text longer.
not_base : (sub base : String) → (sub ++ ("." ++ base) == base) ≡ false
not_base sub base = elim (Bool-cases (sub ++ ("." ++ base) == base)) [
  | inl same ↦ absurd (
      omega (
        arith,
        ap count ((eq_iff (sub ++ ("." ++ base)) base).0 same),
        length-append sub ("." ++ base),
        length-append "." base,
      ))
  | inr other ↦ other
]

module _ (split_host_port : String → Option String) where
  -- The subdomain of `sub.base` is `sub`, with and without ports.
  pub extract_subdomain-append :
      (host base sub : String)
      → host_name split_host_port host ≡ sub ++ ("." ++ host_name split_host_port base)
      → extract_subdomain split_host_port host base ≡ sub
  unfolding extract_subdomain
  extract_subdomain-append host base sub named =
      let bh = host_name split_host_port base in
      rw (named, not_base sub bh, has_suffix-append, trim_suffix-append) refl

  tenant_subdomain-append :
      (roots : List String) (host base sub : String)
      → host_name split_host_port host ≡ sub ++ ("." ++ host_name split_host_port base)
      → contains sub roots ≡ false
      → tenant_subdomain split_host_port roots host base ≡ sub
  unfolding tenant_subdomain
  tenant_subdomain-append roots host base sub named no_root =
      rw (extract_subdomain-append host base sub named, no_root) refl

  -- A request to `sub.base`, where `sub` is no root subdomain, reaches exactly the tenant of `sub`: with
  -- its own database if it is active and has one, else an error or the page of pending activation; if
  -- there is no such tenant the answer is 404.
  pub serve_http_subdomain :
      {D : Type 0} (s : Splitter D) (host sub : String) (allow_origin : Option String)
      → host_name split_host_port host ≡ sub ++ ("." ++ host_name split_host_port s.base_domain)
      → sub ≢ ""
      → contains sub s.root_subdomains ≡ false
      → serve_http split_host_port s host allow_origin ≡ elim (s.by_subdomain sub) [
        | none ↦ to_error "Not found" 404
        | some tenant ↦
            if tenant.active
            then with_database tenant sub (s.tenant_db tenant.id)
            else pending_activation s
      ]
  unfolding serve_http dispatch
  serve_http_subdomain {D = D} s host sub allow_origin named some_sub no_root =
      let given : (sub == "") ≡ false = ground (arith, eq_iff sub "") in
      ap (λ x. dispatch split_host_port s host x allow_origin)
        (tenant_subdomain-append s.root_subdomains host s.base_domain sub named no_root)
      ∙ rw (dispatch, given) (found (s.by_subdomain sub) given)
    where
      found :
          (t : Option Tenant)
          → (sub == "") ≡ false
          → elim t [
            | none ↦ without_tenant {D = D} sub allow_origin
            | some tenant ↦
                if tenant.active
                then with_database tenant sub (s.tenant_db tenant.id)
                else pending_activation s
          ]
            ≡ elim t [
              | none ↦ to_error "Not found" 404
              | some tenant ↦
                  if tenant.active
                  then with_database tenant sub (s.tenant_db tenant.id)
                  else pending_activation s
            ]
      found none given = rw given refl
      found (some tenant) given = refl
