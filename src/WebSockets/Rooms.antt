-- ===== src/WebSockets/Rooms.antt =====
-- Who is in a room of the hub of websocket.go.
use tracks.Common.{
  ℕ, String, ◌≡◌, refl, sym, ap, ◌∙◌, inl, inr, Bool, true, false, ◌&&◌, Option, none, some, List,
  [], ◌∷◌, arith, eq_iff, if◌then◌else◌, nat_beq_iff, Bool-cases, ◌==◌, nat_eq, string_eq, contains,
  contains-append,
}
use mathlib.Core.Path.{subst}
use tracks.Common.Dict.{get, get-put, get-delete}
use tracks.WebSockets.{
  WebSocketHub, new_hub, add, remove, or_empty, members, join, put_or_delete, leave_found, leave,
}

pub data Call : Type 0 where
  join_call : (room : String) (conn : ℕ) → Call
  leave_call : (room : String) (conn : ℕ) → Call

abbrev pub apply : WebSocketHub → Call → WebSocketHub
apply h (join_call room conn) = join h room conn
apply h (leave_call room conn) = leave h room conn

abbrev pub apply_all : WebSocketHub → List Call → WebSocketHub
apply_all h [] = h
apply_all h (c ∷ cs) = apply_all (apply h c) cs

-- Whether a connection is in a room after calls: what the last call about the two says.
abbrev pub is_in : Bool → List Call → String → ℕ → Bool
is_in before [] room conn = before
is_in before (join_call r c ∷ cs) room conn =
    is_in (if r == room && c == conn then true else before) cs room conn
is_in before (leave_call r c ∷ cs) room conn =
    is_in (if r == room && c == conn then false else before) cs room conn

contains-add :
    (c d : ℕ) (cs : List ℕ) → contains d (add c cs) ≡ (if c == d then true else contains d cs)
contains-add c d cs = elim (Bool-cases (contains c cs)) [
  | inl there ↦ rw there (elim (Bool-cases (c == d)) [
    | inl same ↦ rw same (subst (λ e. contains e cs ≡ true) ((nat_beq_iff c d).0 same) there)
    | inr other ↦ rw other refl
  ])
  | inr absent ↦ rw absent (contains-append d cs (c ∷ []) ∙ ground arith)
]

contains-remove :
    (c d : ℕ) (cs : List ℕ) → contains d (remove c cs) ≡ (if c == d then false else contains d cs)
contains-remove c d [] = ground arith
contains-remove c d (x ∷ cs) = ground (arith, contains-remove c d cs)

or_empty-if :
    (b : Bool) (x y : Option (List ℕ))
    → or_empty (if b then x else y) ≡ (if b then or_empty x else or_empty y)
or_empty-if true x y = refl
or_empty-if false x y = refl

members-put_or_delete :
    (h : WebSocketHub) (room r : String) (cs : List ℕ)
    → members (put_or_delete h room cs) r ≡ (if room == r then cs else members h r)
members-put_or_delete h room r [] =
    ap or_empty (get-delete room r h.connections)
    ∙ or_empty-if (room == r) none (get r h.connections)
members-put_or_delete h room r (c ∷ cs) =
    ap or_empty (get-put room r (c ∷ cs) h.connections)
    ∙ or_empty-if (room == r) (some (c ∷ cs)) (get r h.connections)

members-join :
    (h : WebSocketHub) (room r : String) (c : ℕ)
    → members (join h room c) r ≡ (if room == r then add c (members h room) else members h r)
unfolding join
members-join h room r c =
    ap or_empty (get-put room r (add c (members h room)) h.connections)
    ∙ or_empty-if (room == r) (some (add c (members h room))) (get r h.connections)

members-leave :
    (h : WebSocketHub) (room r : String) (c : ℕ)
    → members (leave h room c) r ≡ (if room == r then remove c (members h room) else members h r)
unfolding leave
members-leave h room r c = go (get room h.connections) refl
  where
    go :
        (o : Option (List ℕ))
        → get room h.connections ≡ o
        → members (leave_found h room c o) r
          ≡ (if room == r then remove c (or_empty o) else members h r)
    go none e = elim (Bool-cases (room == r)) [
      | inl same ↦
          rw same (ap or_empty (ap (λ q. get q h.connections) (sym ((eq_iff _ _).0 same)) ∙ e))
      | inr other ↦ rw other refl
    ]
    go (some cs) e = members-put_or_delete h room r (remove c cs)

-- One call, for any room and connection.
contains-apply :
    (h : WebSocketHub) (call : Call) (room : String) (conn : ℕ)
    → contains conn (members (apply h call) room)
      ≡ is_in (contains conn (members h room)) (call ∷ []) room conn
contains-apply h (join_call r c) room conn =
    ap (contains conn) (members-join h r room c) ∙ elim (Bool-cases (r == room)) [
      | inl same ↦ rw same (
          contains-add c conn (members h r)
          ∙ ap (λ q. if c == conn then true else contains conn (members h q)) ((eq_iff _ _).0 same))
      | inr other ↦ rw other refl
    ]
contains-apply h (leave_call r c) room conn =
    ap (contains conn) (members-leave h r room c) ∙ elim (Bool-cases (r == room)) [
      | inl same ↦ rw same (
          contains-remove c conn (members h r)
          ∙ ap (λ q. if c == conn then false else contains conn (members h q))
              ((eq_iff _ _).0 same))
      | inr other ↦ rw other refl
    ]

is_in_step :
    (before : Bool) (call : Call) (cs : List Call) (room : String) (conn : ℕ)
    → is_in (is_in before (call ∷ []) room conn) cs room conn ≡ is_in before (call ∷ cs) room conn
is_in_step before (join_call r c) cs room conn = refl
is_in_step before (leave_call r c) cs room conn = refl

contains-apply_all :
    (h : WebSocketHub) (cs : List Call) (room : String) (conn : ℕ)
    → contains conn (members (apply_all h cs) room)
      ≡ is_in (contains conn (members h room)) cs room conn
contains-apply_all h [] room conn = refl
contains-apply_all h (c ∷ cs) room conn =
    contains-apply_all (apply h c) cs room conn
    ∙ ap (λ b. is_in b cs room conn) (contains-apply h c room conn)
    ∙ is_in_step (contains conn (members h room)) c cs room conn

-- After any calls of `Join` and `Leave` on a new hub, a connection is in a room exactly if the last call for
-- the two is a `Join`.
pub apply_all-is_in :
    (cs : List Call) (room : String) (conn : ℕ)
    → contains conn (members (apply_all new_hub cs) room) ≡ is_in false cs room conn
unfolding get
apply_all-is_in cs room conn = contains-apply_all new_hub cs room conn
