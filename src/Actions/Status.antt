-- ===== src/Actions/Status.antt =====
-- The status that the client gets of an action of action.go.
use tracks.Common.{
  ℕ, String, ◌≡◌, refl, ap, ◌∙◌, inl, inr, Bool, true, false, not, ◌&&◌, ◌||◌, Option, none, some,
  List, [], ◌∷◌, ◌++◌, map, ltb, nat_beq, if◌then◌else◌, nat_beq_iff, Bool-cases, Option-cases,
  ◌==◌, string_eq,
}
use tracks.Http.{Request}
use tracks.Actions.Responses.{Payload, Response, text, bytes, error_data, other}
use tracks.Actions.{
  Returned, Write, set_cookie, set_header, write_header, encode_json, encode_xml, write_text,
  execute, execute_response, encode_error, panics, Rendering, Renderer, as_json, as_xml, as_html,
  as_text, choose, determine_content_type, with_status, render_json, render_xml, render_text,
  render_html, render_page, render, fallback, write, response_of, serve_http,
}

-- What `WriteHeader` of net/http makes of a status before anything is written: a panic for a status below
-- 100 or above 999; only an announcement for one from 100 to 199 other than 101, so that the status
-- comes `later`; and otherwise the status of the answer.
abbrev pub final_status : (status : ℕ) → (later : Option ℕ) → Option ℕ
final_status n later =
    if ltb n 100 || ltb 999 n
    then none
    else if ltb n 200 && not (nat_beq n 101)
    then later
    else some n

-- The final status that net/http sends: that of the first final `WriteHeader` before anything is written,
-- and 200 without one; none where the handler panics first.
abbrev pub status_of : {X E : Type 0} → List (Write X E) → Option ℕ
status_of [] = some 200
status_of (set_cookie c ∷ ws) = status_of ws
status_of (set_header k v ∷ ws) = status_of ws
status_of (write_header n ∷ ws) = final_status n (status_of ws)
status_of (panics ∷ ws) = none
status_of (encode_json d ∷ ws) = some 200
status_of (encode_xml d ∷ ws) = some 200
status_of (write_text s ∷ ws) = some 200
status_of (execute n d ∷ ws) = some 200
status_of (execute_response n d ∷ ws) = some 200
status_of (encode_error e ∷ ws) = some 200

module _ {X E : Type 0} (env : Rendering X E) where
  -- A redirect in HTML has the status of its kind, another HTML answer 200, and the other answers that of
  -- the response.
  abbrev pub rendered_status : Renderer → Request → Response X → Option ℕ
  rendered_status as_json r resp = final_status resp.status_code (some 200)
  rendered_status as_xml r resp = final_status resp.status_code (some 200)
  rendered_status as_text r resp = final_status resp.status_code (some 200)
  rendered_status as_html r resp =
      if not (resp.location == "")
      then some (if r.header "hx-request" == "true" then 202 else 303)
      else if nat_beq resp.status_code 200 || env.has_template
      then some 200
      else none

  abbrev pub answer_status : Request → Option (Response X) → Option ℕ
  answer_status r none = none
  answer_status r (some resp) = elim (choose (determine_content_type r)) [
    | none ↦ some 406
    | some k ↦ rendered_status k r (with_status env resp)
  ]

  status_of-set_cookie :
      (cs : List String) (ws : List (Write X E))
      → status_of (map set_cookie cs ++ ws) ≡ status_of ws
  status_of-set_cookie [] ws = refl
  status_of-set_cookie (c ∷ cs) ws = status_of-set_cookie cs ws

  status_of-fallback : (o : Option E) → status_of (fallback env o) ≡ some 200
  unfolding fallback
  status_of-fallback none = refl
  status_of-fallback (some e) = refl

  text_status :
      (status : ℕ) (d : Payload X) (location : String) (cookies : List String)
      → let resp : Response X = record {
        status_code = status;
        location = location;
        payload = d;
        cookies = cookies;
      } in
        status_of ((render_text env resp).0 ++ fallback env (render_text env resp).1)
        ≡ final_status status (some 200)
  unfolding render_text render_json
  text_status status (text s) location cookies = refl
  text_status status (bytes s) location cookies = refl
  text_status status (error_data d) location cookies = refl
  text_status status (other x) location cookies = refl

  page_status :
      (resp : Response X)
      → status_of ((render_page env resp).0 ++ fallback env (render_page env resp).1)
        ≡ final_status resp.status_code (some 200)
  unfolding fallback
  page_status resp = elim (Option-cases env.clone_error) [
    | inl e ↦ rw e refl
    | inr (err, e) ↦ rw e refl
  ]

  found_status :
      (resp : Response X) (there : Bool)
      → resp.status_code ≡ 200
      → let page : List (Write X E) × Option E =
          if there then render_page env resp else ([], some env.template_not_found) in
        status_of (page.0 ++ fallback env page.1) ≡ some 200
  found_status resp true e = page_status resp ∙ ap (λ n. final_status n (some 200)) e
  found_status resp false e = status_of-fallback (some env.template_not_found)

  html_status :
      (r : Request) (resp : Response X)
      → status_of ((render_html env r resp).0 ++ fallback env (render_html env r resp).1)
        ≡ rendered_status as_html r resp
  unfolding render_html fallback
  html_status r resp = elim (Bool-cases (resp.location == "")) [
    | inl direct ↦ rw direct (elim (Bool-cases (nat_beq resp.status_code 200)) [
      | inl good ↦ rw good (found_status resp env.has_template ((nat_beq_iff _ _).0 good))
      | inr bad ↦ rw bad (elim (Bool-cases env.has_template) [
        | inl there ↦ rw there refl
        | inr absent ↦ rw absent refl
      ])
    ])
    | inr elsewhere ↦ rw elsewhere (elim (Bool-cases (r.header "hx-request" == "true")) [
      | inl htmx ↦ rw htmx refl
      | inr plain ↦ rw plain refl
    ])
  ]

  render_status :
      (k : Renderer) (r : Request) (resp : Response X)
      → status_of ((render env k r resp).0 ++ fallback env (render env k r resp).1)
        ≡ rendered_status k r resp
  unfolding render render_json render_xml
  render_status as_json r resp = refl
  render_status as_xml r resp = refl
  render_status as_text r resp =
      text_status resp.status_code resp.payload resp.location resp.cookies
  render_status as_html r resp = html_status r resp

  -- The final status of the answer of an action, for whatever it returns and however the encoders fail: 406
  -- where no type in the Accept header is known; the status of the response (200 for 0) in JSON, XML and
  -- plain text, where it is one that net/http sends as a final status, else 200 for one that it only
  -- announces and a panic for one that it refuses; in HTML 202 or 303 for a redirect, and otherwise 200 whatever the status of the response,
  -- except that a response with another status than 200 panics where there is no template. A nil
  -- pointer for the response or the error panics.
  pub serve_http-status :
      (impl : Request → Returned X E) (r : Request)
      → status_of (serve_http env impl r) ≡ answer_status r (response_of env (impl r))
  unfolding serve_http write
  serve_http-status impl r = go (response_of env (impl r))
    where
      answered :
          (resp : Response X) (o : Option Renderer)
          → status_of (elim o [
            | none ↦ write_header 406 ∷ []
            | some k ↦
                (render env k r (with_status env resp)).0
                ++ fallback env (render env k r (with_status env resp)).1
          ])
            ≡ elim o [ none ↦ some 406 | some k ↦ rendered_status k r (with_status env resp) ]
      answered resp none = refl
      answered resp (some k) = render_status k r (with_status env resp)

      go :
          (o : Option (Response X))
          → status_of (elim o [ none ↦ panics ∷ [] | some resp ↦ write env r resp ])
            ≡ answer_status r o
      go none = refl
      go (some resp) =
          status_of-set_cookie resp.cookies _ ∙ answered resp (choose (determine_content_type r))
