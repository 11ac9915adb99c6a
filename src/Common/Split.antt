-- ===== src/Common/Split.antt =====
-- Go's strings.Split by one character, and strings.TrimSpace.
use Prim.Native.Nat.{ℕ}
use Prim.Native.Char.{Char, code}
use Prim.Native.String.{String, [], ◌∷◌}
use mathlib.Core.Bool.{Bool, true, false, ◌&&◌, ◌||◌}
use mathlib.Core.List
use package.tracks.Common.Tests.{if◌then◌else◌, nat_beq, leb}

-- A character in front of the first part.
abbrev pub in_front : Char → List.List String → List.List String
in_front c List.[] = List.◌∷◌ (c ∷ []) List.[]
in_front c (List.◌∷◌ p ps) = List.◌∷◌ (c ∷ p) ps

-- `strings.Split(s, sep)` for a separator of one character, given by its code.
unfoldable pub split_on : ℕ → String → List.List String
split_on sep [] = List.◌∷◌ [] List.[]
split_on sep (c ∷ s) =
    let rest = split_on sep s in if nat_beq (code c) sep then List.◌∷◌ [] rest else in_front c rest

-- The first of the parts, of which there is always one.
abbrev pub first_part : List.List String → String
first_part List.[] = []
first_part (List.◌∷◌ p _) = p

-- `unicode.IsSpace`
abbrev pub is_space : ℕ → Bool
is_space n =
    (leb 9 n && leb n 13)
    || nat_beq n 32
    || nat_beq n 0x85
    || nat_beq n 0xa0
    || nat_beq n 0x1680
    || (leb 0x2000 n && leb n 0x200a)
    || nat_beq n 0x2028
    || nat_beq n 0x2029
    || nat_beq n 0x202f
    || nat_beq n 0x205f
    || nat_beq n 0x3000

unfoldable pub trim_left : String → String
trim_left [] = []
trim_left (c ∷ s) = let rest = trim_left s in if is_space (code c) then rest else c ∷ s

unfoldable pub trim_right : String → String
trim_right [] = []
trim_right (c ∷ s) =
    let rest = trim_right s in if is_space (code c) && is_empty rest then [] else c ∷ rest
  where
    is_empty : String → Bool
    is_empty [] = true
    is_empty (_ ∷ _) = false

-- `strings.TrimSpace`
unfoldable pub trim_space : String → String
unfolding trim_left trim_right
trim_space s = trim_left (trim_right s)
