-- ===== src/Session/Data.antt =====
-- The data of a session: session/inmemory/data.go, and the methods of the same names in
-- session/db/store.go, which differ only in `Save` and `Invalidate`. The mutex makes each call one step.
use tracks.Common.{String, Bool, true, false, Option, none, some, [], string_eq}
use tracks.Common.Dict
use tracks.Common.Dict.{Dict}

pub record SessionData : Type 0 where
  pub id : String
  pub data_of : Dict String String
  pub flash_old : Dict String String
  pub flash_new : Dict String String

-- A session with nothing in it, as `Create` and `Invalidate` make it.
abbrev pub empty_session : String → SessionData
empty_session id = record { id = id; data_of = []; flash_old = []; flash_new = [] }

abbrev pub get_value : SessionData → String → Option String
get_value s key = Dict.get key s.data_of

unfoldable pub put_value : SessionData → String → String → SessionData
put_value s key value = record s { data_of = Dict.put key value s.data_of }

unfoldable pub forget : SessionData → String → SessionData
forget s key = record s { data_of = Dict.delete key s.data_of }

unfoldable pub authenticate : SessionData → String → SessionData
unfolding put_value
authenticate s user_id = put_value s "user_id" user_id

abbrev pub authenticated : SessionData → Option String
authenticated s = get_value s "user_id"

abbrev pub is_authenticated : SessionData → Bool
is_authenticated s = elim (authenticated s) [ none ↦ false | some _ ↦ true ]

unfoldable pub flash : SessionData → String → String → SessionData
flash s key value = record s {
  flash_old = Dict.put key value s.flash_old;
  flash_new = Dict.put key value s.flash_new;
}

abbrev pub flash_messages : SessionData → Dict String String
flash_messages s = s.flash_old

-- The two assignments by which a save moves the messages on.
unfoldable pub move_flash : SessionData → SessionData
move_flash s = record s { flash_old = s.flash_new; flash_new = [] }
