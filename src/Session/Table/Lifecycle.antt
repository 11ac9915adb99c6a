-- ===== src/Session/Table/Lifecycle.antt =====
-- How a session of session/db/store.go passes from one request to the next.
use tracks.Common.{
  ℕ, String, ◌≡◌, refl, sym, ◌∙◌, ◌≢◌, true, false, none, some, [], arith, string_eq, beq_self,
}
use tracks.Common.Dict
use tracks.Common.Dict.{Dict}
use tracks.Session.Data.{empty_session, flash, flash_messages}
use tracks.Session.Table.{Stored, Rows, Json, unmarshal, load, model_of, update, invalidate}

-- Two maps that read alike.
abbrev pub Same : Dict String String → Dict String String → Type 0
Same m n = (key : String) → Dict.get key m ≡ Dict.get key n

-- What encoding/json gives: a map is read back from its text, up to the order of its keys, and "{}" is
-- the empty map.
pub record JsonLaws {T : Type 0} (json : Json T) : Type 0 where
  pub round_trip :
      (m : Dict String String)
      → (m' : Dict String String) × (unmarshal json (json.encode m) ≡ some m') × Same m' m
  pub empty : unmarshal json json.braces ≡ some []

-- A session as the next request sees it, after a save of `d`.
pub record Carried (d s : Stored) : Type 0 where
  pub same_id : s.session.id ≡ d.session.id
  pub values : Same s.session.data_of d.session.data_of
  pub messages : Same (flash_messages s.session) d.session.flash_new
  pub no_new : s.session.flash_new ≡ []

has-update :
    {T : Type 0} (json : Json T) (rows : Rows T) (d : Stored) (now : ℕ)
    → Dict.has d.session.id rows ≡ true
    → Dict.has d.session.id (update json rows true d now).0 ≡ true
unfolding update
has-update json rows d now here =
    rw here (ground (arith, Dict.has-put d.session.id d.session.id (model_of json d now) rows))

module _ {T : Type 0} (json : Json T) (laws : JsonLaws json) where
  -- After a save that succeeds, of a session with a row, the next request loads a session with the
  -- same values, and with exactly those messages that were flashed since the save before.
  pub load-update :
      (rows : Rows T) (d : Stored) (now : ℕ)
      → Dict.has d.session.id rows ≡ true
      → (s : Stored) × (load json (update json rows true d now).0 true d.session.id ≡ some s)
        × Carried d s
  unfolding load update
  load-update rows d now here =
      let (data_of, read, alike) = laws.round_trip d.session.data_of in
      let (messages, heard, told) = laws.round_trip d.session.flash_new in
      (
        record {
          session = record {
            id = d.session.id;
            data_of = data_of;
            flash_old = messages;
            flash_new = [];
          };
          created_at = d.created_at;
          updated_at = now;
        },
        rw (here, load, Dict.get-put_self, read, heard) refl,
        record { same_id = refl; values = alike; messages = told; no_new = refl },
      )

  -- After an invalidation whose statements succeed, with a new id that no row has, the old id loads
  -- nothing, and the new one a session with nothing in it.
  pub load-invalidate_rows :
      (rows : Rows T) (d : Stored) (new : String) (now : ℕ)
      → d.session.id ≢ new
      → Dict.has new (Dict.delete d.session.id rows) ≡ false
      → (load json (invalidate json rows true true d new now).0 true d.session.id ≡ none)
        × (load json (invalidate json rows true true d new now).0 true new
            ≡ some (record { session = empty_session new; created_at = now; updated_at = now }))
  unfolding load invalidate
  load-invalidate_rows rows d new now other free = (
    rw
        (
          free,
          load,
          Dict.get-put_ne new d.session.id _ _ (λ e. other (sym e)),
          Dict.get-delete,
          beq_self d.session.id,
        )
        refl,
    rw (free, load, Dict.get-put_self, laws.empty) refl,
  )

  -- For a session with a row, and saves that succeed, a flashed message is there in the next request,
  -- and gone in the one after it if it is not flashed again.
  pub flash-load :
      (rows : Rows T) (d : Stored) (key value : String) (now later : ℕ)
      → Dict.has d.session.id rows ≡ true
      → (s : Stored) × (load json
            (update json rows true (record d { session = flash d.session key value }) now).0
            true
            d.session.id
          ≡ some s)
        × (Dict.get key (flash_messages s.session) ≡ some value)
        × ((s' : Stored) × (load json
                (update json
                  (update json rows true (record d { session = flash d.session key value }) now).0
                  true
                  s
                  later).0
                true
                s.session.id
              ≡ some s')
            × (Dict.get key (flash_messages s'.session) ≡ none))
  unfolding flash Dict.get
  flash-load rows d key value now later here =
      let flashed : Stored = record d { session = flash d.session key value } in
      let (s, loaded, carried) = load-update rows flashed now here in
      let (s', again, passed) =
        load-update (update json rows true flashed now).0 s later
          (rw carried.same_id (has-update json rows flashed now here)) in
      (
        s,
        loaded,
        carried.messages key ∙ Dict.get-put_self key value d.session.flash_new,
        (s', again, passed.messages key ∙ rw carried.no_new refl),
      )
