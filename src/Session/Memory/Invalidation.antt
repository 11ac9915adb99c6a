-- ===== src/Session/Memory/Invalidation.antt =====
-- What `Invalidate` of session/inmemory/data.go leaves in the store.
use tracks.Common.{ℕ, String, ◌≡◌, ◌∙◌, ◌≢◌, none, some, arith, nat_eq, string_eq}
use tracks.Common.Dict
use tracks.Common.Dict.{Dict}
use tracks.Session.Data.{SessionData, empty_session}
use tracks.Session.Memory.{Heap, load, create, update_at, invalidate}

load-update_at :
    (h : Heap) (p : ℕ) (f : SessionData → SessionData) (id : String)
    → load (update_at h p f) id ≡ load h id
unfolding load
load-update_at h p f id = ground arith

get-update_at :
    (h : Heap) (p : ℕ) (f : SessionData → SessionData) {s : SessionData}
    → Dict.get p h.objects ≡ some s
    → Dict.get p (update_at h p f).objects ≡ some (f s)
get-update_at h p f found = rw (found, update_at) (Dict.get-put_self p (f _) h.objects)

-- Creating a session, and then invalidating it, leaves the store without the new id if it did not
-- have it before, while the old id still loads the same session: the cookie with the new id that
-- the middleware sends finds nothing.
pub load-invalidate :
    (h : Heap) (old new : String)
    → old ≢ new
    → load h new ≡ none
    → (load (invalidate (create h old).0 (create h old).1 new) new ≡ none)
      × (load (invalidate (create h old).0 (create h old).1 new) old ≡ some h.next)
      × (Dict.get h.next (invalidate (create h old).0 (create h old).1 new).objects
          ≡ some (empty_session new))
unfolding load create invalidate
load-invalidate h old new other absent =
    let made = (create h old).0 in
    (
      load-update_at made h.next _ new ∙ Dict.get-put_ne old new h.next h.sessions other ∙ absent,
      load-update_at made h.next _ old ∙ Dict.get-put_self old h.next h.sessions,
      get-update_at made h.next _ (Dict.get-put_self h.next (empty_session old) h.objects),
    )
