-- ===== src/Common/Splitting.antt =====
-- Lemmas on texts that are split and trimmed.
use Prim.Native.Nat.{ℕ}
use Prim.Native.Char.{Char, code}
use Prim.Native.String.{String, [], ◌∷◌, ◌++◌}
use mathlib.Core.Path.{◌≡◌, refl, ap, ◌∙◌}
use mathlib.Core.Bool.{Bool, true, false}
use mathlib.Core.List
use text.Mathlib.TextLemmas.{nil-append, cons-append}
use package.tracks.Common.Tests.{nat_beq}
use package.tracks.Common.Split.{split_on, in_front, is_space, trim_left, trim_right, trim_space}

-- No character of the text has the property.
abbrev pub Avoids : (ℕ → Bool) → String → Type 0
Avoids p [] = Unit
Avoids p (c ∷ s) = (p (code c) ≡ false) × Avoids p s

pub Avoids-append : (p : ℕ → Bool) (s t : String) → Avoids p s → Avoids p t → Avoids p (s ++ t)
Avoids-append p [] t h k = rw nil-append k
Avoids-append p (c ∷ s) t h k = rw cons-append (h.0, Avoids-append p s t h.1 k)

pub trim_left-Avoids : (s : String) → Avoids is_space s → trim_left s ≡ s
unfolding trim_left
trim_left-Avoids [] h = refl
trim_left-Avoids (c ∷ s) h = rw h.0 refl

pub trim_right-Avoids : (s : String) → Avoids is_space s → trim_right s ≡ s
unfolding trim_right
trim_right-Avoids [] h = refl
trim_right-Avoids (c ∷ s) h = rw h.0 (ap (◌∷◌ c) (trim_right-Avoids s h.1))

pub trim_space-Avoids : (s : String) → Avoids is_space s → trim_space s ≡ s
unfolding trim_space
trim_space-Avoids s h = rw (trim_right-Avoids s h) (trim_left-Avoids s h)

module _ (sep : ℕ) where
  pub split_on-Avoids :
      (s : String) → Avoids (λ n. nat_beq n sep) s → split_on sep s ≡ List.◌∷◌ s List.[]
  unfolding split_on
  split_on-Avoids [] h = refl
  split_on-Avoids (c ∷ s) h = rw h.0 (ap (in_front c) (split_on-Avoids s h.1))

  -- A text up to the first separator is the first part.
  pub split_on-append :
      (s : String) (c : Char) (t : String)
      → Avoids (λ n. nat_beq n sep) s
      → nat_beq (code c) sep ≡ true
      → split_on sep (s ++ (c ∷ t)) ≡ List.◌∷◌ s (split_on sep t)
  unfolding split_on
  split_on-append [] c t h e = rw (nil-append, split_on, e) refl
  split_on-append (d ∷ s) c t h e =
      rw (cons-append, split_on, h.0) (ap (in_front d) (split_on-append s c t h.1 e))

  pub split_on-separator :
      (s : String) (c : Char) (t : String)
      → Avoids (λ n. nat_beq n sep) s
      → nat_beq (code c) sep ≡ true
      → split_on sep (s ++ ((c ∷ []) ++ t)) ≡ List.◌∷◌ s (split_on sep t)
  split_on-separator s c t h e =
      ap (λ u. split_on sep (s ++ u)) (cons-append c [] t ∙ ap (◌∷◌ c) (nil-append t))
      ∙ split_on-append s c t h e
