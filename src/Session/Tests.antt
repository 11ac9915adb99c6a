-- ===== src/Session/Tests.antt =====
-- Sessions over several requests.
use tracks.Common.{
  String, ◌≡◌, refl, ◌≢◌, true, false, none, some, List, [], ◌∷◌, arith, eq_iff, nat_eq, string_eq,
}
use tracks.Common.Dict
use tracks.Common.Dict.{Dict}
use tracks.Session.Data.{
  empty_session, put_value, forget, authenticate, authenticated, is_authenticated, flash,
}
use tracks.Session.Memory.{Heap, new_store}
use tracks.Session.Table.{Stored, Rows, Json, fresh_model}
use tracks.Session.Table.Lifecycle.{JsonLaws}
use tracks.Session.Writer.{WriterCall, write_header, write, new_id}
use tracks.Session.Memory

is_authenticated-authenticate : is_authenticated (authenticate (empty_session "s1") "7") ≡ true
unfolding authenticate put_value Dict.get Dict.put
is_authenticated-authenticate = refl

forget-user_id : authenticated (forget (authenticate (empty_session "s1") "7") "user_id") ≡ none
unfolding forget authenticate put_value Dict.get Dict.put Dict.delete
forget-user_id = refl

other_id : ◌≢◌ {A = String} "s1" "s2"
other_id = ground (arith, eq_iff "s1" "s2")

new_store-absent : Memory.load new_store "s2" ≡ none
unfolding Memory.load new_store Dict.get
new_store-absent = refl

-- Columns that hold the map itself.
abbrev plain_json : Json (Dict String String)
plain_json = record { encode = λ m. m; decode = some; is_blank = λ t. false; braces = [] }

plain_json-JsonLaws : JsonLaws plain_json
plain_json-JsonLaws = record { round_trip = λ m. (m, refl, λ key. refl); empty = refl }

abbrev one_row : Rows (Dict String String)
one_row = ("s1", fresh_model plain_json 3) ∷ []

abbrev signed_in : Stored
signed_in = record {
  session = record { id = "s1"; data_of = ("user_id", "7") ∷ []; flash_old = []; flash_new = [] };
  created_at = 3;
  updated_at = 3;
}

abbrev flashed : Stored
flashed = record signed_in { session = flash signed_in.session "notice" "Saved" }

-- A handler that renews the session before it writes.
abbrev renews : List WriterCall
renews = new_id "s2" ∷ write_header 200 ∷ write "ok" ∷ []
