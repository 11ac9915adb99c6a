-- ===== src/Common/Joining.antt =====
-- `strings.Join` undoes `strings.Split`, and is undone by it on parts without the separator.
use Prim.Native.Nat.{ℕ}
use Prim.Native.Char.{Char, code}
use Prim.Native.String.{String, [], ◌∷◌, ◌++◌}
use mathlib.Core.Path.{◌≡◌, refl, sym, ap, ◌∙◌}
use mathlib.Core.Bool.{false}
use mathlib.Core.Logic.{inl, inr}
use mathlib.Core.List
use text.Mathlib.TextEquality.{Char-path}
use text.Mathlib.TextLemmas.{nil-append, cons-append}
use package.tracks.Common.Tests.{nat_beq, nat_beq_iff, Bool-cases}
use package.tracks.Common.Lists.{All}
use package.tracks.Common.Split.{split_on, in_front}
use package.tracks.Common.Splitting.{Avoids, split_on-Avoids, split_on-separator}
use package.tracks.Common.Text.{join}

-- The parts hold no separator.
abbrev pub Apart : ℕ → List.List String → Type 0
Apart sep = All (Avoids (λ n. nat_beq n sep))

join-in_front :
    (sep : String) (d : Char) (ps : List.List String) → join sep (in_front d ps) ≡ d ∷ join sep ps
unfolding join
join-in_front sep d List.[] = refl
join-in_front sep d (List.◌∷◌ p List.[]) = refl
join-in_front sep d (List.◌∷◌ p (List.◌∷◌ q ps)) = cons-append d p (sep ++ join sep (List.◌∷◌ q ps))

in_front-Apart :
    (sep : ℕ) (d : Char) (ps : List.List String)
    → nat_beq (code d) sep ≡ false
    → Apart sep ps
    → Apart sep (in_front d ps)
in_front-Apart sep d List.[] h k = ((h, tt), tt)
in_front-Apart sep d (List.◌∷◌ p ps) h k = ((h, k.0), k.1)

pub split_on-Apart : (sep : ℕ) (s : String) → Apart sep (split_on sep s)
unfolding split_on
split_on-Apart sep [] = (tt, tt)
split_on-Apart sep (d ∷ s) = elim (Bool-cases (nat_beq (code d) sep)) [
  | inl e ↦ rw e (tt, split_on-Apart sep s)
  | inr e ↦ rw e (in_front-Apart sep d (split_on sep s) e (split_on-Apart sep s))
]

pub split_on-join :
    (c : Char) (p : String) (ps : List.List String)
    → Apart (code c) (List.◌∷◌ p ps)
    → split_on (code c) (join (c ∷ []) (List.◌∷◌ p ps)) ≡ List.◌∷◌ p ps
unfolding join
split_on-join c p List.[] h = split_on-Avoids (code c) p h.0
split_on-join c p (List.◌∷◌ q ps) h =
    split_on-separator (code c) p c (join (c ∷ []) (List.◌∷◌ q ps)) h.0 ((nat_beq_iff _ _).1 refl)
    ∙ ap (List.◌∷◌ p) (split_on-join c q ps h.1)

-- There is always a first part.
split_on_parts :
    (sep : ℕ) (s : String)
    → (p : String) × (ps : List.List String) × (split_on sep s ≡ List.◌∷◌ p ps)
unfolding split_on
split_on_parts sep [] = ([], List.[], refl)
split_on_parts sep (d ∷ s) =
    let (p, ps, e) = split_on_parts sep s in
    elim (Bool-cases (nat_beq (code d) sep)) [
      | inl t ↦ ([], split_on sep s, rw t)
      | inr t ↦ (d ∷ p, ps, rw (t, e))
    ]

join-separator :
    (c : Char) (s : String)
    → join (c ∷ []) (List.◌∷◌ [] (split_on (code c) s)) ≡ c ∷ join (c ∷ []) (split_on (code c) s)
unfolding join
join-separator c s =
    let (p, ps, e) = split_on_parts (code c) s in
    ap (λ (l : List.List String). join (c ∷ []) (List.◌∷◌ [] l)) e
    ∙ blank p ps
    ∙ ap (λ (l : List.List String). c ∷ join (c ∷ []) l) (sym e)
  where
    blank :
        (p : String) (ps : List.List String)
        → join (c ∷ []) (List.◌∷◌ [] (List.◌∷◌ p ps)) ≡ c ∷ join (c ∷ []) (List.◌∷◌ p ps)
    blank p ps = rw (nil-append, cons-append, nil-append)

pub join-split_on : (c : Char) (s : String) → join (c ∷ []) (split_on (code c) s) ≡ s
unfolding split_on join
join-split_on c [] = refl
join-split_on c (d ∷ s) = elim (Bool-cases (nat_beq (code d) (code c))) [
  | inl e ↦
      rw (e, Char-path d c ((nat_beq_iff _ _).0 e))
        (join-separator c s ∙ ap (◌∷◌ c) (join-split_on c s))
  | inr e ↦ rw e (join-in_front (c ∷ []) d (split_on (code c) s) ∙ ap (◌∷◌ d) (join-split_on c s))
]
