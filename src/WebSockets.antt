-- ===== src/WebSockets.antt =====
-- The hub of websocket.go: the connections of every room. A connection is a number, and the set of a room
-- (`map[*WebSocketConn]bool`) is a list without repetitions. The mutex makes `Join` and `Leave` one step.
pub mod Rooms
mod Tests
use tracks.Common.{
  ℕ, String, not, Option, none, some, List, [], ◌∷◌, ◌++◌, if◌then◌else◌, ◌==◌, nat_eq, string_eq,
  keep, contains,
}
use tracks.Common.Dict.{Dict, get, put, delete}

pub record WebSocketHub : Type 0 where
  pub connections : Dict String (List ℕ)

abbrev pub new_hub : WebSocketHub
new_hub = record { connections = [] }

-- `m[conn] = true`
abbrev pub add : ℕ → List ℕ → List ℕ
add conn conns = if contains conn conns then conns else conns ++ conn ∷ []

-- `delete(m, conn)`
abbrev pub remove : ℕ → List ℕ → List ℕ
remove conn conns = keep (λ c. not (c == conn)) conns

abbrev pub or_empty : Option (List ℕ) → List ℕ
or_empty none = []
or_empty (some conns) = conns

abbrev pub members : WebSocketHub → String → List ℕ
members h room = or_empty (get room h.connections)

unfoldable pub join : WebSocketHub → String → ℕ → WebSocketHub
join h room conn = record { connections = put room (add conn (members h room)) h.connections }

-- `if len(...) == 0 { delete(h.connections, room) }`
abbrev pub put_or_delete : WebSocketHub → String → List ℕ → WebSocketHub
put_or_delete h room [] = record { connections = delete room h.connections }
put_or_delete h room (c ∷ cs) = record { connections = put room (c ∷ cs) h.connections }

abbrev pub leave_found : WebSocketHub → String → ℕ → Option (List ℕ) → WebSocketHub
leave_found h room conn none = h
leave_found h room conn (some conns) = put_or_delete h room (remove conn conns)

unfoldable pub leave : WebSocketHub → String → ℕ → WebSocketHub
leave h room conn = leave_found h room conn (get room h.connections)

-- The writes of `Broadcast`, or the error of json.Marshal; the errors of the writes are dropped.
unfoldable pub broadcast :
    {E : Type 0} → WebSocketHub → String → (marshal_error : Option E) → List ℕ × Option E
broadcast h room none = (members h room, none)
broadcast h room (some e) = ([], some e)
