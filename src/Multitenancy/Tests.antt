-- ===== src/Multitenancy/Tests.antt =====
-- Requests to tenants.
use tracks.Common.{
  ℕ, String, ◌≡◌, refl, true, Option, none, some, [], ◌∷◌, arith, eq_iff, if◌then◌else◌, ◌==◌,
  string_eq,
}
use Prim.Native.String.{◌++◌}
use tracks.Multitenancy.{Splitter, to_tenant, host_name, serve_http}
use tracks.Multitenancy.Splitting.{serve_http_subdomain}

-- Hosts in the tests have no port.
abbrev no_port : String → Option String
no_port host = none

abbrev one_tenant : Splitter ℕ
one_tenant = record {
  by_subdomain = λ sub. if sub == "acme" then some (record { id = 7; active = true }) else none;
  by_custom_domain = λ domain. none;
  tenant_db = λ id. some id;
  base_domain = "example.com";
  secure = true;
  root_subdomains = "www" ∷ [];
}

acme_host :
    host_name no_port "acme.example.com" ≡ "acme" ++ ("." ++ host_name no_port "example.com")
unfolding host_name
acme_host = refl

serve_http_subdomain_example :
    serve_http no_port one_tenant "acme.example.com" none
    ≡ to_tenant (record { id = 7; active = true }) "acme" 7
serve_http_subdomain_example =
    serve_http_subdomain no_port one_tenant "acme.example.com" "acme" none acme_host
      (ground (arith, eq_iff "acme" "")) refl
