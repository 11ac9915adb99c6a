-- ===== src/Middleware.antt =====
-- middleware.go. A handler is of an abstract type `H`, a middleware takes one and gives a handler
-- or an error, and the middlewares of one route are built for the router before they are applied.
pub mod Order
mod Tests
use tracks.Common.{zero, suc, ℕ, Option, none, some, List, [], ◌∷◌, ◌++◌, map, length}
use tracks.Common.Result.{Result, ok, err, panicked, ◌>>=◌}

abbrev pub Middleware : Type 0 → Type 0 → Type 0
Middleware E H = H → Result E H

pub record Middlewares (E H : Type 0) : Type 0 where
  pub l : List (Middleware E H)

abbrev pub nth {ℓ} : {E : Type 0} {A : Type ℓ} → List A → ℕ → Result E A
nth [] i = panicked
nth (m ∷ ms) zero = ok m
nth (m ∷ ms) (suc i) = nth ms i

module _ {E H : Type 0} where
  -- `none` is the nil middleware, which is not added.
  unfoldable pub apply : Middlewares E H → Option (Middleware E H) → Middlewares E H
  apply ms none = ms
  apply ms (some m) = record { l = ms.l ++ m ∷ [] }

  -- `for i := n - 1; i >= 0; i-- { h, err = l[i](h); if err != nil { return nil, err } }`
  unfoldable pub wrap_down : List (Middleware E H) → ℕ → H → Result E H
  wrap_down l zero h = ok h
  wrap_down l (suc i) h = do m ← nth l i; h' ← m h; wrap_down l i h'

  -- `mws` are the middlewares of the route, applied first.
  unfoldable pub wrap :
      {R : Type 0} → Middlewares E H → R → H → List (R → Middleware E H) → Result E H
  wrap ms r h mws = do
    h' ← wrap_down (map (λ b. b r) mws) (length mws) h
    wrap_down ms.l (length ms.l) h'
