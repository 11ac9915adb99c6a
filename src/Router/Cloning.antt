-- ===== src/Router/Cloning.antt =====
-- `Clone` of router.go copies the slice `requestMiddlewares.l`, so a router and its clone share a backing
-- array. Slices are modelled over a store of arrays: `append` writes into the array where there is room, and
-- else into a new one.
use tracks.Common.{
  ◌+◌, ℕ, ◌≡◌, inl, inr, ◌&&◌, Option, some, arith, ltb, nat_beq, if◌then◌else◌, Bool-cases,
}

pub record Slice : Type 0 where
  pub array : ℕ
  pub len : ℕ
  pub cap : ℕ

pub record Arrays (M : Type 0) : Type 0 where
  pub cells : ℕ → ℕ → Option M
  pub next : ℕ

abbrev pub write : {M : Type 0} → Arrays M → ℕ → ℕ → M → Arrays M
write h a i m = record h {
  cells = λ b j. if nat_beq b a && nat_beq j i then some m else h.cells b j;
}

-- Go's `append(s, m)`; `grow` is the capacity of the new array.
unfoldable pub append : {M : Type 0} → (ℕ → ℕ) → Arrays M → Slice → M → Arrays M × Slice
append grow h s m =
    if ltb s.len s.cap then (write h s.array s.len m, record s { len = s.len + 1 }) else (
      write
          (record h {
            cells = λ a i. if nat_beq a h.next then h.cells s.array i else h.cells a i;
            next = h.next + 1;
          })
          h.next s.len m,
      record { array = h.next; len = s.len + 1; cap = grow s.cap },
    )

-- A router and its clone: the requests' middlewares of both, in one store.
pub record Pair (M : Type 0) : Type 0 where
  pub arrays : Arrays M
  pub original : Slice
  pub cloned : Slice

-- `Clone`, for the slice of the middlewares.
unfoldable pub clone_slice : {M : Type 0} → Arrays M → Slice → Pair M
clone_slice h s = record { arrays = h; original = s; cloned = s }

-- `RequestMiddleware` on the router, and on the clone.
unfoldable pub add_to_original : {M : Type 0} → (ℕ → ℕ) → Pair M → M → Pair M
unfolding append
add_to_original grow p m =
    let (h, s) = append grow p.arrays p.original m in record p { arrays = h; original = s }

unfoldable pub add_to_clone : {M : Type 0} → (ℕ → ℕ) → Pair M → M → Pair M
unfolding append
add_to_clone grow p m =
    let (h, s) = append grow p.arrays p.cloned m in record p { arrays = h; cloned = s }

abbrev pub original_at : {M : Type 0} → Pair M → ℕ → Option M
original_at p i = p.arrays.cells p.original.array i

-- A middleware that is added to a router after `Clone` is replaced by the one that is then added to the
-- clone, exactly where the slice that the two share has room; it is kept where the slice is full.
pub add-clone_slice :
    {M : Type 0} (grow : ℕ → ℕ) (h : Arrays M) (s : Slice) (m m' : M)
    → original_at (add_to_clone grow (add_to_original grow (clone_slice h s) m) m') s.len
      ≡ some (if ltb s.len s.cap then m' else m)
unfolding add_to_clone add_to_original clone_slice append
add-clone_slice grow h s m m' = elim (Bool-cases (ltb s.len s.cap)) [
  | inl room ↦ ground arith
  | inr full ↦ ground arith
]
