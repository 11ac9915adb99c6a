-- ===== src/Csrf/Policy.antt =====
-- Which requests csrf.go lets through.
use tracks.Common.{
  String, ◌≡◌, ◌≢◌, ◌↔◌, ◌⊎◌, inl, inr, true, false, none, some, [], ◌∷◌, arith, eq_iff,
  Option-cases,
}
use Prim.Native.String.{◌++◌}
use tracks.Common.Text.{has_suffix-append, trim_suffix-append}
use text.Mathlib.Text.{starts_with}
use tracks.Http.{Request, set_cookie, serve}
use tracks.RateLimit.Ideal.{serves}
use tracks.Csrf.{
  CsrfConfig, is_safe_method, match_path, is_exempt, request_token, get_or_create_token,
  validate_token, protect,
}

-- A request with a method that may change something, and with no exempt path, reaches the handler
-- exactly when the cookie is there, is not empty, and is repeated in the header or, if the header
-- is absent, in the form.
pub protect-serves_iff :
    (c : CsrfConfig) (generated : String) (r : Request)
    → is_safe_method r.method ≡ false
    → is_exempt c.exempt_paths r.path ≡ false
    → (serves (protect c generated r) ≡ true)
      ↔ ((r.cookie c.cookie_name ≡ some (request_token c r)) × (request_token c r ≢ ""))
unfolding protect validate_token
protect-serves_iff c generated r unsafe checked =
    rw (unsafe, checked)
      (elim (Option-cases (r.cookie c.cookie_name)) [
        | inl missing ↦ rw missing (ground arith)
        | inr (value, present) ↦
            rw present
              (ground (arith, eq_iff (request_token c r) "", eq_iff (request_token c r) value))
      ])

-- A safe request always reaches the handler, with a token in its context that is the cookie's
-- value, which the response sets if the request had none.
pub protect_safe :
    (c : CsrfConfig) (generated : String) (r : Request)
    → is_safe_method r.method ≡ true
    → ((token : String) × (r.cookie c.cookie_name ≡ some token)
        × (protect c generated r ≡ serve (record r { csrf_token = some token }) ∷ []))
      ⊎ ((r.cookie c.cookie_name ≡ none)
          × (protect c generated r
              ≡ set_cookie c.cookie_name generated r.tls
                ∷ serve (record r { csrf_token = some generated })
                ∷ []))
unfolding protect get_or_create_token
protect_safe c generated r safe = rw safe (elim (Option-cases (r.cookie c.cookie_name)) [
  | inl missing ↦ inr (missing, rw (missing, get_or_create_token))
  | inr (value, present) ↦ inl (value, present, rw (present, get_or_create_token))
])

-- A pattern that ends in a star exempts the paths that begin with what stands before the star.
pub match_path_star :
    (before path : String) → match_path (before ++ "*") path ≡ starts_with path before
unfolding match_path
match_path_star before path = rw (has_suffix-append, trim_suffix-append)
