-- ===== src/Session/Writer.antt =====
-- session/sessions.go: the middleware, and the response writer that saves the session before the first
-- byte. A handler is the sequence of its calls; what they do to the session but for its id is in the
-- store.
pub mod Saving
use tracks.Common.{
  ℕ, String, Bool, true, false, Option, none, some, List, [], ◌∷◌, ◌++◌, if◌then◌else◌, ◌==◌,
  string_eq,
}

pub data WriterCall : Type 0 where
  write_header : (code : ℕ) → WriterCall
  write : (bytes : String) → WriterCall
  -- `Invalidate` gives the session a new id.
  new_id : (generated : String) → WriterCall

-- What reaches the client and the store.
pub data Output : Type 0 where
  cookie_out : (id : String) → Output
  save_out : (id : String) → Output
  header_out : (code : ℕ) → Output
  bytes_out : (bytes : String) → Output

pub record SessionResponseWriter : Type 0 where
  pub id : String
  pub initial_id : String
  pub saved : Bool

unfoldable pub save : SessionResponseWriter → SessionResponseWriter × List Output
save w = (
  record w { saved = true },
  if w.id == w.initial_id then save_out w.id ∷ [] else cookie_out w.id ∷ save_out w.id ∷ [],
)

-- `if !w.saved { w.save() }`
unfoldable pub save_unless_saved : SessionResponseWriter → SessionResponseWriter × List Output
unfolding save
save_unless_saved w = if w.saved then (w, []) else save w

unfoldable pub call_writer :
    SessionResponseWriter → WriterCall → SessionResponseWriter × List Output
unfolding save_unless_saved
call_writer w (write_header code) =
    let (w', out) = save_unless_saved w in (w', out ++ header_out code ∷ [])
call_writer w (write bytes) =
    let (w', out) = save_unless_saved w in (w', out ++ bytes_out bytes ∷ [])
call_writer w (new_id generated) = (record w { id = generated }, [])

unfoldable pub run_handler :
    SessionResponseWriter → List WriterCall → SessionResponseWriter × List Output
unfolding call_writer
run_handler w [] = (w, [])
run_handler w (c ∷ cs) =
    let (w', out) = call_writer w c in let (w'', rest) = run_handler w' cs in (w'', out ++ rest)

-- `load`: the session of the cookie if the store has it, and else a new one, which a new cookie names.
-- `create` is the store's, here with the id that it gives.
unfoldable pub load_session :
    (store : String → Bool) → (cookie : Option String) → (created : String) → String
load_session store none created = created
load_session store (some id) created = if store id then id else created

-- `ServeHTTP` for a request with no session in its context, with a handler that makes `calls`.
unfoldable pub serve_http :
    (store : String → Bool)
    → (cookie : Option String) → (created : String) → List WriterCall
    → List Output
unfolding run_handler save_unless_saved load_session
serve_http store cookie created calls =
    let id = load_session store cookie created in
    let (w, out) = run_handler (record { id = id; initial_id = id; saved = false }) calls in
    cookie_out id ∷ (out ++ (save_unless_saved w).1)
