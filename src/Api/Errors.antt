-- ===== src/Api/Errors.antt =====
-- pkg/api/error.go: the response to an error of a handler.
use rekor.Base.{ℕ, Bool, true, false, List, [], ◌∷◌, Option, none, some, if◌then◌else◌, ◌==◌}
use mathlib.Core.Option
use rekor.Base.Bytes.{Bytes, bytes_eq, codes}

-- The parameters of the handlers, which tell them apart.
pub data Params : Type 0 where
  get_log_entry_by_index get_log_entry_by_uuid create_log_entry search_log_query get_log_info
        get_log_proof get_public_key get_public_keys search_index :
      Params

-- A value beside the message: a string, or a strfmt.URI.
pub data Field : Type 0 where
  text uri : Bytes → Field

-- The status, the message of the payload if there is one, and the Location.
pub record Response : Type 0 where
  pub status : ℕ
  pub message : Option Bytes
  pub location : Option Bytes

-- The field behind "entryURL"; `none` is a panic, of a field that has the other type.
abbrev pub find_location : Bool → List Field → Option (Option Bytes)
find_location location_found [] = some none
find_location true (uri u ∷ fields) = some (some u)
find_location true (text s ∷ fields) = none
find_location false (text s ∷ fields) =
    let rest = find_location false fields in
    if bytes_eq s (codes "entryURL") then find_location true fields else rest
find_location false (uri u ∷ fields) = none

abbrev pub with_payload : ℕ → Bytes → Response
with_payload status message = record { status = status; message = some message; location = none }

abbrev pub found_payload : ℕ → Bytes → Response
found_payload status message =
    if status == 404
    then record { status = 404; message = none; location = none }
    else with_payload status message

abbrev pub create_payload : ℕ → Bytes → List Field → Option Response
create_payload status message fields =
    if status == 409
    then Option.map (λ l. record (with_payload 409 message) { location = l })
        (find_location false fields)
    else some (with_payload status message)

abbrev pub message_or : (ℕ → Bytes) → ℕ → Bytes → Bytes
message_or status_text code [] = status_text code
message_or status_text code (c ∷ cs) = c ∷ cs

-- The response to parameters that the switch does not name is that of middleware.Error.
abbrev pub response_to : (ℕ → Bytes) → Params → ℕ → Bytes → List Field → Option Response
response_to status_text get_log_entry_by_index code message fields =
    some (found_payload code message)
response_to status_text get_log_entry_by_uuid code message fields =
    some (found_payload code message)
response_to status_text create_log_entry code message fields = create_payload code message fields
response_to status_text get_public_keys code message fields =
    some (with_payload 500 (status_text 500))
response_to status_text _ code message fields = some (with_payload code message)

-- `status_text` is http.StatusText.
unfoldable pub handle_rekor_api_error :
    (ℕ → Bytes) → Params → ℕ → Bytes → List Field → Option Response
handle_rekor_api_error status_text params code message fields =
    response_to status_text params code (message_or status_text code message) fields
