-- ===== src/Middleware/Order.antt =====
-- The order in which middleware.go applies middlewares.
use tracks.Common.{
  zero, suc, ℕ, ◌≡◌, refl, sym, ap, ◌∙◌, some, List, [], ◌∷◌, ◌++◌, map, length, length-map,
}
use mathlib.Core.List.{append_assoc}
use tracks.Common.Result.{Result, ok, ◌>>=◌, >>=_assoc, >>=_ok, >>=_congr}
use tracks.Middleware.{Middleware, Middlewares, apply, nth, wrap_down, wrap}

-- A chain with the first middleware outermost.
abbrev pub nest : {E H : Type 0} → List (Middleware E H) → H → Result E H
nest [] h = ok h
nest (m ∷ ms) h = nest ms h >>= m

module _ {E H : Type 0} where
  wrap_down-cons :
      (m : Middleware E H) (ms : List (Middleware E H)) (i : ℕ) (h : H)
      → wrap_down (m ∷ ms) (suc i) h ≡ (wrap_down ms i h >>= m)
  unfolding wrap_down
  wrap_down-cons m ms zero h = >>=_ok (m h)
  wrap_down-cons m ms (suc i) h =
      >>=_congr (nth {E = E} ms i) _ _ (λ x. >>=_congr (x h) _ _ (wrap_down-cons m ms i))
      ∙ >>=_congr (nth {E = E} ms i) _ _ (λ x. sym (>>=_assoc (x h) (wrap_down ms i) m))
      ∙ sym (>>=_assoc (nth {E = E} ms i) (λ x. x h >>= wrap_down ms i) m)

  wrap_down-nest : (ms : List (Middleware E H)) (h : H) → wrap_down ms (length ms) h ≡ nest ms h
  unfolding wrap_down
  wrap_down-nest [] h = refl
  wrap_down-nest (m ∷ ms) h =
      wrap_down-cons m ms (length ms) h ∙ ap (λ x. x >>= m) (wrap_down-nest ms h)

  pub nest-append : (a b : List (Middleware E H)) (h : H) → nest (a ++ b) h ≡ (nest b h >>= nest a)
  nest-append [] b h = sym (>>=_ok (nest b h))
  nest-append (m ∷ a) b h = ap (λ x. x >>= m) (nest-append a b h) ∙ >>=_assoc (nest b h) (nest a) m

-- The shared middlewares go round those of the route, and in each list the first one is outermost;
-- the first error, from the inside out, is the result.
pub wrap-nest :
    {E H R : Type 0} (ms : Middlewares E H) (r : R) (h : H) (mws : List (R → Middleware E H))
    → wrap ms r h mws ≡ nest (ms.l ++ map (λ b. b r) mws) h
unfolding wrap
wrap-nest ms r h mws =
    let built = map (λ b. b r) mws in
    ap (λ n. wrap_down built n h >>= wrap_down ms.l (length ms.l)) (sym (length-map (λ b. b r) mws))
    ∙ ap (λ x. x >>= wrap_down ms.l (length ms.l)) (wrap_down-nest built h)
    ∙ >>=_congr (nest built h) _ _ (wrap_down-nest ms.l)
    ∙ sym (nest-append ms.l built h)

-- A middleware added to the shared ones stands inside the earlier ones and outside the route's.
pub wrap-apply :
    {E H R : Type 0} (ms : Middlewares E H) (m : Middleware E H) (r : R) (h : H)
    (mws : List (R → Middleware E H))
    → wrap (apply ms (some m)) r h mws ≡ wrap ms r h ((λ _. m) ∷ mws)
unfolding apply
wrap-apply ms m r h mws =
    rw (wrap-nest, wrap-nest) (ap (λ l. nest l h) (append_assoc ms.l (m ∷ []) (map (λ b. b r) mws)))
