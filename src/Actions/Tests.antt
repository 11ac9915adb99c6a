-- ===== src/Actions/Tests.antt =====
-- Answers of action.go, with opaque values and errors that are texts.
use tracks.Common.{
  String, ◌≡◌, refl, true, false, none, some, [], ◌∷◌, if◌then◌else◌, ◌==◌, string_eq,
}
use tracks.Common.Split.{split_on, trim_space, trim_left, trim_right}
use tracks.Http.{Request, blank}
use tracks.Actions.Responses.{other, not_found, validation_error, bad_request}
use tracks.Actions.{
  Returned, response, opaque, set_header, write_header, encode_json, Rendering,
  determine_content_type, choose, renderer_of, render, render_json, render_html, fallback, write,
  response_of, serve_http,
}
use tracks.Actions.Status.{status_of, serve_http-status}
use tracks.Actions.Accept.{IsRange}

-- A page with a template, and encoders that do not fail.
abbrev page : Rendering String String
page = record {
  has_template = true;
  clone_error = none;
  template_not_found = "template not found";
  message = λ e. e;
  itoa = λ n. "status";
  json = λ d. none;
  xml = λ d. none;
  written = λ s. none;
  executed = λ name d. none;
  executed_response = λ name resp. none;
  json_of_error = λ e. none;
}

-- An application without templates.
abbrev api : Rendering String String
api = record page { has_template = false }

abbrev accepting : String → Request
accepting types = record blank { header = λ name. if name == "Accept" then types else "" }

abbrev missing : Request → Returned String String
missing r = response (some (not_found "no such page"))

ok-json :
    serve_http api (λ r. opaque (other "user")) (accepting "application/json; q=0.9, text/html")
    ≡ set_header "Content-Type" "application/json"
      ∷ write_header 200
      ∷ encode_json (other "user")
      ∷ []
unfolding serve_http response_of write determine_content_type choose renderer_of render render_json
    fallback split_on trim_space trim_left trim_right
ok-json = refl

-- A browser gets the page for 404 with the status 200, and without templates the handler panics.
missing-html : status_of (serve_http page missing (accepting "text/html")) ≡ some 200
unfolding serve_http response_of write determine_content_type choose renderer_of render render_html
    fallback split_on trim_space trim_left trim_right not_found
missing-html = refl

missing-api : status_of (serve_http api missing (accepting "")) ≡ none
unfolding serve_http response_of write determine_content_type choose renderer_of render render_html
    fallback split_on trim_space trim_left trim_right not_found
missing-api = refl

missing-image : status_of (serve_http page missing (accepting "image/png")) ≡ some 406
unfolding serve_http response_of write determine_content_type choose renderer_of render split_on
    trim_space trim_left trim_right not_found
missing-image = refl

validation_error-fields : validation_error {X = String} "invalid" none ≡ bad_request "invalid"
unfolding validation_error
validation_error-fields = refl

serve_http-status_example :
    status_of (serve_http page missing (accepting "application/xml")) ≡ some 404
unfolding response_of determine_content_type choose renderer_of split_on trim_space trim_left
    trim_right not_found
serve_http-status_example = serve_http-status page missing (accepting "application/xml")

html-IsRange : IsRange (record { content_type = "text/html"; parameters = "q=0.2" })
html-IsRange = record {
  type_spaces = (refl, (refl, (refl, (refl, (refl, (refl, (refl, (refl, (refl, tt)))))))));
  type_commas = (refl, (refl, (refl, (refl, (refl, (refl, (refl, (refl, (refl, tt)))))))));
  type_semicolons = (refl, (refl, (refl, (refl, (refl, (refl, (refl, (refl, (refl, tt)))))))));
  parameter_spaces = (refl, (refl, (refl, (refl, (refl, tt)))));
  parameter_commas = (refl, (refl, (refl, (refl, (refl, tt)))));
}

xml-IsRange : IsRange (record { content_type = "text/xml"; parameters = "q=0.9" })
xml-IsRange = record {
  type_spaces = (refl, (refl, (refl, (refl, (refl, (refl, (refl, (refl, tt))))))));
  type_commas = (refl, (refl, (refl, (refl, (refl, (refl, (refl, (refl, tt))))))));
  type_semicolons = (refl, (refl, (refl, (refl, (refl, (refl, (refl, (refl, tt))))))));
  parameter_spaces = (refl, (refl, (refl, (refl, (refl, tt)))));
  parameter_commas = (refl, (refl, (refl, (refl, (refl, tt)))));
}
