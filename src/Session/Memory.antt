-- ===== src/Session/Memory.antt =====
-- session/inmemory/store.go, and `Save` and `Invalidate` of data.go. The store holds pointers: a session
-- is a number, under which the heap has its data, so that all requests of a session share them.
-- `generated` is what `generateSessionID` returns.
pub mod Invalidation
use tracks.Common.{◌+◌, ℕ, String, Option, none, some, [], nat_eq, string_eq}
use tracks.Common.Dict
use tracks.Common.Dict.{Dict}
use tracks.Session.Data.{SessionData, empty_session, move_flash}

pub record Heap : Type 0 where
  pub objects : Dict ℕ SessionData
  pub next : ℕ
  pub sessions : Dict String ℕ

unfoldable pub new_store : Heap
new_store = record { objects = []; next = 0; sessions = [] }

unfoldable pub load : Heap → String → Option ℕ
load h id = Dict.get id h.sessions

unfoldable pub create : Heap → String → Heap × ℕ
create h generated = (
  record {
    objects = Dict.put h.next (empty_session generated) h.objects;
    next = h.next + 1;
    sessions = Dict.put generated h.next h.sessions;
  },
  h.next,
)

-- A method of the data at a pointer; one to no data is never given out.
abbrev pub update_at : Heap → ℕ → (SessionData → SessionData) → Heap
update_at h p f = elim (Dict.get p h.objects) [
  | none ↦ h
  | some s ↦ record h { objects = Dict.put p (f s) h.objects }
]

unfoldable pub save : Heap → ℕ → Heap
unfolding move_flash
save h p = update_at h p move_flash

unfoldable pub invalidate : Heap → ℕ → String → Heap
invalidate h p generated = update_at h p (λ _. empty_session generated)
