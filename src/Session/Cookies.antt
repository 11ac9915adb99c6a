-- ===== src/Session/Cookies.antt =====
-- The cookie of a session (session/sessions.go): its domain, and when it is for HTTPS only.
-- `net.SplitHostPort` and the comparison of an address with 127.0.0.1 are parameters.
mod Tests
use tracks.Common.{
  String, ◌≡◌, ap, Bool, true, not, ◌&&◌, ◌||◌, Option, none, some, arith, if◌then◌else◌, ◌==◌,
  string_eq,
}
use Prim.Native.String.{◌++◌}
use tracks.Authentication.Roles.{has_infix}
use tracks.Http.{Request}

pub record Net : Type 0 where
  pub split_host_port : String → Option String
  pub is_loopback : String → Bool

abbrev pub without_port : Net → String → String
without_port net domain = elim (net.split_host_port domain) [ none ↦ domain | some host ↦ host ]

-- The domain for a host: one with a dot before it, for its subdomains too, unless the host is local.
abbrev pub domain_of : Net → String → String
domain_of net host =
    if not (host == "localhost")
      && not (has_infix host ":")
      && not (net.is_loopback host)
      && has_infix host "."
    then "." ++ host
    else host

-- The domain that `Middleware` gives to the cookies.
unfoldable pub cookie_domain : Net → String → String
cookie_domain net domain = domain_of net (without_port net domain)

-- `IsSecure`
unfoldable pub is_secure : Request → Bool
is_secure r = r.tls || r.header "X-Forwarded-Proto" == "https"

pub record SessionCookie : Type 0 where
  pub name : String
  pub value : String
  pub domain : String
  pub path : String
  pub http_only : Bool
  pub secure : Bool
  pub same_site : String

abbrev pub session_cookie : (domain id : String) → (secure : Bool) → SessionCookie
session_cookie domain id secure = record {
  name = "sessions";
  value = id;
  domain = domain;
  path = "/";
  http_only = true;
  secure = secure;
  same_site = "Lax";
}

without_port_again :
    (net : Net) (host : String) → net.split_host_port host ≡ none → without_port net host ≡ host
without_port_again net host no_port = ground arith

-- A port that the configured domain names does not change the domain of the cookies, where the host
-- before it names no further port.
pub cookie_domain-without_port :
    (net : Net) (domain : String)
    → net.split_host_port (without_port net domain) ≡ none
    → cookie_domain net (without_port net domain) ≡ cookie_domain net domain
unfolding cookie_domain
cookie_domain-without_port net domain no_port =
    ap (domain_of net) (without_port_again net (without_port net domain) no_port)
