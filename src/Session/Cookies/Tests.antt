-- ===== src/Session/Cookies/Tests.antt =====
-- Domains of cookies.
use tracks.Common.{◌≡◌, refl, none, some, if◌then◌else◌, ◌==◌, string_eq}
use tracks.Authentication.Roles.{has_infix}
use tracks.Session.Cookies.{Net, cookie_domain}

abbrev net : Net
net = record {
  split_host_port = λ s. if s == "a.org:8080" then some "a.org" else none;
  is_loopback = λ s. s == "127.0.0.1";
}

with_port : cookie_domain net "a.org:8080" ≡ ".a.org"
unfolding cookie_domain has_infix
with_port = refl

local : cookie_domain net "localhost" ≡ "localhost"
unfolding cookie_domain has_infix
local = refl

loopback : cookie_domain net "127.0.0.1" ≡ "127.0.0.1"
unfolding cookie_domain has_infix
loopback = refl
