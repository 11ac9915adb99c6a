-- ===== src/Session/Writer/Saving.antt =====
-- When the response writer of session/sessions.go saves.
use tracks.Common.{
  String, ◌≡◌, refl, sym, ap, ◌∙◌, Bool, true, false, Option, List, [], ◌∷◌, ◌++◌, if◌then◌else◌,
  ◌==◌, string_eq,
}
use mathlib.Core.List.{append-nil, append_assoc}
use tracks.Session.Writer.{
  WriterCall, write_header, write, new_id, Output, cookie_out, save_out, header_out, bytes_out,
  SessionResponseWriter, save, save_unless_saved, call_writer, run_handler, load_session,
  serve_http,
}

-- What the handler writes, without the saves.
abbrev pub written : List WriterCall → List Output
written [] = []
written (write_header code ∷ cs) = header_out code ∷ written cs
written (write bytes ∷ cs) = bytes_out bytes ∷ written cs
written (new_id _ ∷ cs) = written cs

-- The id of the session when the first byte or header is written, or else at the end.
abbrev pub id_at_save : String → List WriterCall → String
id_at_save id [] = id
id_at_save id (write_header code ∷ cs) = id
id_at_save id (write bytes ∷ cs) = id
id_at_save id (new_id generated ∷ cs) = id_at_save generated cs

abbrev pub saving : (initial id : String) → List Output
saving initial id = if id == initial then save_out id ∷ [] else cookie_out id ∷ save_out id ∷ []

-- A run from a writer, with the save at its end.
abbrev whole : SessionResponseWriter → List WriterCall → List Output
whole w cs = let (w', out) = run_handler w cs in out ++ (save_unless_saved w').1

abbrev writer : (initial id : String) → Bool → SessionResponseWriter
writer initial id saved = record { id = id; initial_id = initial; saved = saved }

run_saved :
    (initial id : String) (cs : List WriterCall) → whole (writer initial id true) cs ≡ written cs
unfolding run_handler call_writer save_unless_saved
run_saved initial id [] = refl
run_saved initial id (write_header code ∷ cs) = ap (◌∷◌ (header_out code)) (run_saved initial id cs)
run_saved initial id (write bytes ∷ cs) = ap (◌∷◌ (bytes_out bytes)) (run_saved initial id cs)
run_saved initial id (new_id generated ∷ cs) = run_saved initial generated cs

regroup :
    (s : List Output) (x : Output) (rest end : List Output) {all : List Output}
    → rest ++ end ≡ all
    → ((s ++ x ∷ []) ++ rest) ++ end ≡ s ++ x ∷ all
regroup s x rest end h =
    append_assoc (s ++ x ∷ []) rest end
    ∙ append_assoc s (x ∷ []) (rest ++ end)
    ∙ ap (λ r. s ++ x ∷ r) h

run_unsaved :
    (initial id : String) (cs : List WriterCall)
    → whole (writer initial id false) cs ≡ saving initial (id_at_save id cs) ++ written cs
unfolding run_handler call_writer save_unless_saved save
run_unsaved initial id [] = sym (append-nil _)
run_unsaved initial id (write_header code ∷ cs) =
    regroup (saving initial id) (header_out code) _ _ (run_saved initial id cs)
run_unsaved initial id (write bytes ∷ cs) =
    regroup (saving initial id) (bytes_out bytes) _ _ (run_saved initial id cs)
run_unsaved initial id (new_id generated ∷ cs) = run_unsaved initial generated cs

-- Whatever the handler calls, in whatever order, the session is saved exactly once, before the first
-- header or byte and under the id that it has then, with a new cookie exactly if that id is not the one
-- that was loaded; everything the handler writes follows in order.
pub serve_http-written :
    (store : String → Bool) (cookie : Option String) (created : String) (calls : List WriterCall)
    → serve_http store cookie created calls
      ≡ cookie_out (load_session store cookie created)
        ∷ (saving
              (load_session store cookie created)
              (id_at_save (load_session store cookie created) calls)
            ++ written calls)
unfolding serve_http
serve_http-written store cookie created calls =
    let id = load_session store cookie created in ap (◌∷◌ (cookie_out id)) (run_unsaved id id calls)
