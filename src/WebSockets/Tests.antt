-- ===== src/WebSockets/Tests.antt =====
-- Rooms of the hub of websocket.go.
use tracks.Common.{String, ◌≡◌, refl, false, none, List, [], ◌∷◌, nat_eq, string_eq, contains}
use tracks.Common.Dict.{get, put, delete}
use tracks.WebSockets.{new_hub, members, join, leave, broadcast}
use tracks.WebSockets.Rooms.{Call, join_call, leave_call, apply_all, apply_all-is_in}

abbrev calls : List Call
calls =
    join_call "lobby" 1
    ∷ join_call "lobby" 2
    ∷ join_call "lobby" 1
    ∷ join_call "attic" 3
    ∷ leave_call "lobby" 1
    ∷ leave_call "attic" 3
    ∷ []

hub-after_calls : apply_all new_hub calls ≡ record { connections = ("lobby", 2 ∷ []) ∷ [] }
unfolding join leave get put delete
hub-after_calls = refl

broadcast-lobby : broadcast {E = String} (apply_all new_hub calls) "lobby" none ≡ (2 ∷ [], none)
unfolding broadcast join leave get put delete
broadcast-lobby = refl

apply_all-is_in_example : contains 1 (members (apply_all new_hub calls) "lobby") ≡ false
apply_all-is_in_example = apply_all-is_in calls "lobby" 1
