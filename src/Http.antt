-- ===== src/Http.antt =====
-- The part of Go's net/http that the components exchange: a request as the values that the code
-- reads from it, and a response as the sequence of calls that a handler makes.
use tracks.Common.{ℕ, String, Bool, Option, none}

-- `r.Header.Get`, `r.FormValue` and `r.URL.Query().Get` give "" for a name that is absent;
-- `r.Cookie` gives an error, here `none`.
pub record Request : Type 0 where
  pub method : String
  pub path : String
  pub remote_addr : String
  pub tls : Bool
  pub header : String → String
  pub cookie : String → Option String
  pub form_value : String → String
  pub query : String → String
  pub csrf_token : Option String

-- What a handler does, in order; `serve` is the call of the next handler, with its request.
pub data Effect : Type 0 where
  set_header : (name value : String) → Effect
  set_cookie : (name value : String) (secure : Bool) → Effect
  http_error : (message : String) (code : ℕ) → Effect
  panics : Effect
  serve : Request → Effect

-- A request that carries nothing, for tests.
abbrev pub blank : Request
blank = record {
  method = "GET";
  path = "/";
  remote_addr = "10.0.0.1:4000";
  tls = Bool.false;
  header = λ _. "";
  cookie = λ _. none;
  form_value = λ _. "";
  query = λ _. "";
  csrf_token = none;
}
