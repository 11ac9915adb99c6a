-- ===== src/Session/Table.antt =====
-- session/db/store.go and session/db/model.go: sessions in a table of the database. A column is a text of the
-- abstract type `T`, read and written by encoding/json; `up` says whether a statement succeeds, and times are nanoseconds. `generated`
-- is what `generateSessionID` returns.
pub mod Lifecycle
use tracks.Common.{
  ℕ, String, Bool, true, false, not, ◌&&◌, Option, none, some, [], if◌then◌else◌, string_eq,
}
use tracks.Common.Dict
use tracks.Common.Dict.{Dict}
use tracks.Session.Data.{SessionData, empty_session, move_flash}

pub record SessionModel (T : Type 0) : Type 0 where
  pub data_text : T
  pub flash_text : T
  pub created_at : ℕ
  pub updated_at : ℕ

-- A session of this store, which keeps the time of its creation.
pub record Stored : Type 0 where
  pub session : SessionData
  pub created_at : ℕ
  pub updated_at : ℕ

-- The rows by their primary key `id`.
abbrev pub Rows : Type 0 → Type 0
Rows T = Dict String (SessionModel T)

-- What the code uses of encoding/json, with the texts "" and "{}".
pub record Json (T : Type 0) : Type 0 where
  pub encode : Dict String String → T
  pub decode : T → Option (Dict String String)
  pub is_blank : T → Bool
  pub braces : T

module _ {T : Type 0} (json : Json T) where
  -- `UnmarshalData` and `UnmarshalFlash`
  abbrev pub unmarshal : T → Option (Dict String String)
  unmarshal text = let read = json.decode text in if json.is_blank text then some [] else read

  -- The session, unless one of the columns cannot be read.
  abbrev pub stored_of :
      String
      → SessionModel T
      → Option (Dict String String)
      → Option (Dict String String)
      → Option Stored
  stored_of id model (some data_of) (some messages) = some (record {
    session = record { id = id; data_of = data_of; flash_old = messages; flash_new = [] };
    created_at = model.created_at;
    updated_at = model.updated_at;
  })
  stored_of id model (some data_of) none = none
  stored_of id model none (some messages) = none
  stored_of id model none none = none

  unfoldable pub load : Rows T → Bool → String → Option Stored
  load rows false id = none
  load rows true id = elim (Dict.get id rows) [
    | none ↦ none
    | some model ↦ stored_of id model (unmarshal model.data_text) (unmarshal model.flash_text)
  ]

  -- The model that `update` sends.
  abbrev pub model_of : Stored → ℕ → SessionModel T
  model_of d now = record {
    data_text = json.encode d.session.data_of;
    flash_text = json.encode d.session.flash_new;
    created_at = d.created_at;
    updated_at = now;
  }

  -- `UPDATE … WHERE id = ?` of an id without a row changes nothing, and is no error.
  unfoldable pub update : Rows T → Bool → Stored → ℕ → Rows T × Stored × Bool
  unfolding move_flash
  update rows false d now = (rows, d, false)
  update rows true d now = (
    if Dict.has d.session.id rows then Dict.put d.session.id (model_of d now) rows else rows,
    record d { session = move_flash d.session },
    true,
  )

  -- The row of a session with nothing in it.
  abbrev pub fresh_model : ℕ → SessionModel T
  fresh_model now = record {
    data_text = json.braces;
    flash_text = json.braces;
    created_at = now;
    updated_at = now;
  }

  -- An INSERT, which fails on an id that is there; its error is only logged.
  abbrev pub insert_fresh : Rows T → Bool → String → ℕ → Rows T
  insert_fresh rows up id now =
      if up && not (Dict.has id rows) then Dict.put id (fresh_model now) rows else rows

  unfoldable pub create : Rows T → Bool → String → ℕ → Rows T × Stored
  create rows up generated now = (
    insert_fresh rows up generated now,
    record { session = empty_session generated; created_at = now; updated_at = now },
  )

  -- A DELETE and an INSERT, whose errors are only logged.
  unfoldable pub invalidate :
      Rows T → (deletes inserts : Bool) → Stored → String → ℕ → Rows T × Stored
  invalidate rows deletes inserts d generated now =
      let left = if deletes then Dict.delete d.session.id rows else rows in
      (insert_fresh left inserts generated now, record d { session = empty_session generated })
