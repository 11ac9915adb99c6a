-- ===== src/Middleware/Tests.antt =====
-- Chains of middleware.go, over handlers that are texts.
use tracks.Common.{ℕ, String, ◌≡◌, refl, List, [], ◌∷◌}
use Prim.Native.String.{◌++◌}
use tracks.Common.Result.{ok}
use tracks.Middleware.{Middleware, Middlewares, wrap_down, wrap}

abbrev label : String → Middleware String String
label name h = ok (name ++ ("(" ++ (h ++ ")")))

abbrev shared : Middlewares String String
shared = record { l = label "log" ∷ label "session" ∷ [] }

abbrev of_route : List (ℕ → Middleware String String)
of_route = (λ r. label "csrf") ∷ []

wrap-shared : wrap shared 0 "h" of_route ≡ ok "log(session(csrf(h)))"
unfolding wrap wrap_down
wrap-shared = refl
