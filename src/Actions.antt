-- ===== src/Actions.antt =====
-- action.go and response.go: what an action answers. The function of the action and the encoders are
-- parameters; a response is the sequence of calls on the http.ResponseWriter.
pub mod Responses
pub mod Status
pub mod Accept
pub mod Page
mod Tests
use tracks.Common.{
  ℕ, String, Bool, false, not, Option, none, some, List, [], ◌∷◌, ◌++◌, map, nat_beq, if◌then◌else◌,
  ◌==◌, string_eq,
}
use tracks.Common.Split.{split_on, first_part, trim_space}
use tracks.Http.{Request}
use tracks.Actions.Responses.{AppError, ErrorData, Payload, error_data, Response, text, bytes}

-- The error of an action, by its Go type; a nil `*AppError` is dereferenced.
pub data ActionError (E : Type 0) : Type 0 where
  app_error : AppError → ActionError E
  app_error_ptr : Option AppError → ActionError E
  other_error : E → ActionError E

-- What an action returns; a `*Response` may be nil.
pub data Returned (X E : Type 0) : Type 0 where
  failure : ActionError E → Returned X E
  response : Option (Response X) → Returned X E
  opaque : Payload X → Returned X E

-- The calls on the http.ResponseWriter, with the text or value that is written.
pub data Write (X E : Type 0) : Type 0 where
  set_cookie : String → Write X E
  set_header : (name value : String) → Write X E
  write_header : ℕ → Write X E
  encode_json : Payload X → Write X E
  encode_xml : Payload X → Write X E
  write_text : String → Write X E
  execute : (name : String) → Payload X → Write X E
  execute_response : (name : String) → Response X → Write X E
  encode_error : E → Write X E
  panics : Write X E

-- The template and the encoders; each gives its error, or none.
pub record Rendering (X E : Type 0) : Type 0 where
  pub has_template : Bool
  pub clone_error : Option E
  pub template_not_found : E
  pub message : E → String
  pub itoa : ℕ → String
  pub json : Payload X → Option E
  pub xml : Payload X → Option E
  pub written : String → Option E
  pub executed : String → Payload X → Option E
  pub executed_response : String → Response X → Option E
  pub json_of_error : E → Option E

pub data Renderer : Type 0 where
  as_json : Renderer
  as_xml : Renderer
  as_html : Renderer
  as_text : Renderer

unfoldable pub determine_content_type : Request → List String
unfolding trim_space split_on
determine_content_type r =
    let accept = trim_space (r.header "Accept") in
    if accept == ""
    then "text/html" ∷ []
    else map (λ t. trim_space (first_part (split_on b';' t))) (split_on b',' accept)

unfoldable pub renderer_of : String → Option Renderer
renderer_of content_type =
    if content_type == "application/json"
    then some as_json
    else if content_type == "application/xml"
    then some as_xml
    else if content_type == "text/html"
    then some as_html
    else if content_type == "text/plain"
    then some as_text
    else if content_type == "*/*"
    then some as_html
    else none

-- `for _, contentType := range contentTypes { switch …; if render != nil { break } }`
unfoldable pub choose : List String → Option Renderer
unfolding renderer_of
choose [] = none
choose (t ∷ ts) = let rest = choose ts in elim (renderer_of t) [ none ↦ rest | some k ↦ some k ]

module _ {X E : Type 0} (env : Rendering X E) where
  unfoldable pub render_json : Response X → List (Write X E) × Option E
  render_json resp = (
    set_header "Content-Type" "application/json"
        ∷ write_header resp.status_code
        ∷ encode_json resp.payload
        ∷ [],
    env.json resp.payload,
  )

  unfoldable pub render_xml : Response X → List (Write X E) × Option E
  render_xml resp = (
    set_header "Content-Type" "application/xml"
        ∷ write_header resp.status_code
        ∷ encode_xml resp.payload
        ∷ [],
    env.xml resp.payload,
  )

  abbrev plain : ℕ → String → List (Write X E) × Option E
  plain status s = (
    set_header "Content-Type" "text/plain" ∷ write_header status ∷ write_text s ∷ [],
    env.written s,
  )

  unfoldable pub render_text : Response X → List (Write X E) × Option E
  unfolding render_json
  render_text resp = elim resp.payload [
    | text s ↦ plain resp.status_code s
    | bytes s ↦ plain resp.status_code s
    | _ ↦ render_json resp
  ]

  abbrev pub redirect : Request → String → List (Write X E)
  redirect r location =
      if r.header "hx-request" == "true"
      then set_header "HX-Redirect" location ∷ write_header 202 ∷ []
      else set_header "Location" location ∷ write_header 303 ∷ []

  -- The page, in the layout, with what the session and the context give to it.
  abbrev pub render_page : Response X → List (Write X E) × Option E
  render_page resp =
      let head = set_header "Content-Type" "text/html" ∷ write_header resp.status_code ∷ [] in
      elim env.clone_error [
        | some e ↦ (head, some e)
        | none ↦ (head ++ execute "page" resp.payload ∷ [], env.executed "page" resp.payload)
      ]

  unfoldable pub render_html : Request → Response X → List (Write X E) × Option E
  render_html r resp =
      if not (resp.location == "")
      then (redirect r resp.location, none)
      else if not (nat_beq resp.status_code 200)
      then if env.has_template
        then (
          execute_response (env.itoa resp.status_code) resp ∷ [],
          env.executed_response (env.itoa resp.status_code) resp,
        )
        else (panics ∷ [], none)
      else if env.has_template
      then render_page resp
      else ([], some env.template_not_found)

  unfoldable pub render : Renderer → Request → Response X → List (Write X E) × Option E
  unfolding render_json render_xml render_text render_html
  render as_json r resp = render_json resp
  render as_xml r resp = render_xml resp
  render as_html r resp = render_html r resp
  render as_text r resp = render_text resp

  -- What follows a failed rendering.
  unfoldable pub fallback : Option E → List (Write X E)
  fallback none = []
  fallback (some e) =
      set_header "Content-Type" "application/json" ∷ encode_error e ∷ elim (env.json_of_error e) [
        | none ↦ []
        | some _ ↦ write_text "Error rendering template and marshaling JSON" ∷ []
      ]

  abbrev with_status : Response X → Response X
  with_status resp = record resp {
    status_code = if nat_beq resp.status_code 0 then 200 else resp.status_code;
  }

  unfoldable pub write : Request → Response X → List (Write X E)
  unfolding determine_content_type choose render fallback
  write r resp = map set_cookie resp.cookies ++ elim (choose (determine_content_type r)) [
    | none ↦ write_header 406 ∷ []
    | some k ↦ let (ws, e) = render k r (with_status resp) in ws ++ fallback e
  ]

  abbrev error_response : ℕ → String → String → Response X
  error_response status message code = record {
    status_code = status;
    location = "";
    payload = error_data (record { success = false; message = message; code = code; errors = [] });
    cookies = [];
  }

  -- The response of what the action returns; none where a nil pointer is dereferenced.
  unfoldable pub response_of : Returned X E → Option (Response X)
  response_of (failure (app_error e)) = some (error_response e.status_code e.message e.code)
  response_of (failure (app_error_ptr none)) = none
  response_of (failure (app_error_ptr (some e))) =
      some (error_response e.status_code e.message e.code)
  response_of (failure (other_error e)) =
      some (error_response 500 (env.message e) "INTERNAL_SERVER_ERROR")
  response_of (response resp) = resp
  response_of (opaque value) =
      some (record { status_code = 200; location = ""; payload = value; cookies = [] })

  unfoldable pub serve_http : (Request → Returned X E) → Request → List (Write X E)
  unfolding write response_of
  serve_http impl r = elim (response_of (impl r)) [ none ↦ panics ∷ [] | some resp ↦ write r resp ]
