-- ===== src/Actions/Responses.antt =====
-- response.go: responses, the payload of errors, and the constructors.
use tracks.Common.{ℕ, String, Bool, false, Option, none, some, List, []}

pub record ErrorData : Type 0 where
  pub success : Bool
  pub message : String
  pub code : String
  pub errors : List (String × List String)

pub record AppError : Type 0 where
  pub status_code : ℕ
  pub code : String
  pub message : String

-- A value of the type `any`, by what the renderers tell apart.
pub data Payload (X : Type 0) : Type 0 where
  text : String → Payload X
  bytes : String → Payload X
  error_data : ErrorData → Payload X
  other : X → Payload X

pub record Response (X : Type 0) : Type 0 where
  pub status_code : ℕ
  pub location : String
  pub payload : Payload X
  pub cookies : List String

module _ {X : Type 0} where
  abbrev failed : ℕ → String → String → List (String × List String) → Response X
  failed status message code errors = record {
    status_code = status;
    location = "";
    payload =
        error_data (record { success = false; message = message; code = code; errors = errors });
    cookies = [];
  }

  -- In `bad_request` and `internal_server_error` the message is the text of the error.
  unfoldable pub conflict : String → Response X
  conflict message = failed 409 message "CONFLICT" []

  unfoldable pub bad_request : String → Response X
  bad_request error = failed 400 error "BAD_REQUEST" []

  unfoldable pub not_found : String → Response X
  not_found message = failed 404 message "NOT_FOUND" []

  unfoldable pub forbidden : String → Response X
  forbidden message = failed 403 message "FORBIDDEN" []

  unfoldable pub unauthorized : String → Response X
  unauthorized message = failed 401 message "UNAUTHORIZED" []

  unfoldable pub unprocessable_entity : String → List (String × List String) → Response X
  unprocessable_entity message errors = failed 422 message "VALIDATION_ERROR" errors

  unfoldable pub internal_server_error : String → Response X
  internal_server_error error = failed 500 error "INTERNAL_SERVER_ERROR" []

  unfoldable pub created : Payload X → Response X
  created value = record { status_code = 201; location = ""; payload = value; cookies = [] }

  -- The response of the action; `nil` is the payload.
  unfoldable pub redirect : Payload X → String → Response X
  redirect nil destination = record {
    status_code = 303;
    location = destination;
    payload = nil;
    cookies = [];
  }

  -- `fields` are the errors of the fields, where the error has them.
  unfoldable pub validation_error : String → Option (List (String × List String)) → Response X
  unfolding unprocessable_entity bad_request
  validation_error error (some fields) = unprocessable_entity "Validation failed" fields
  validation_error error none = bad_request error
