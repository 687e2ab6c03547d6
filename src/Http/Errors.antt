-- ===== src/Http/Errors.antt =====
-- internal/infra/http/errors.go: `MapDomainError` and `WriteError`.
pub mod Laws
use senior_project.Common.{
  ℕ, String, Bool, false, ◌||◌, Option, none, some, List, [], ◌∷◌, str_eq, if◌then◌else◌, codes,
  lower_codes, contains_codes, trim_space, is_empty_text,
}
use senior_project.Errors.{
  Error, driver, violation, event_not_found, capacity_full, already_registered, event_not_published,
  event_not_approved, event_cancelled, event_registration_closed, cancellation_not_allowed,
  check_in_not_open_yet, ticket_not_found, ticket_already_cancelled, ticket_already_used,
  ticket_cannot_be_used, ticket_expired, not_found, email_already_exists, user_not_found,
  email_not_allowed, invalid_credentials, refresh_token_invalid, refresh_token_consumed,
  organizer_already_active, organizer_request_not_allowed, organizer_request_invalid_body,
  password_too_short, unsupported_role, provider_ref_exists, payment_not_found, payments_disabled,
  missing_provider_ref, not_implemented, no_rows, invalid_role, invalid_event_id, invalid_action,
  forbidden,
}

-- An error answer: the status, and the `APIError` of its body.
pub record Failure : Type 0 where
  pub status : ℕ
  pub code : String
  pub message : String

-- What the driver says of an error: the text of a `*pgconn.PgError` with this SQLSTATE, and whether
-- `errors.Is(err, context.DeadlineExceeded)` holds of an error with this text.
pub record Driver : Type 0 where
  pub violation_text : String → String
  pub is_deadline : String → Bool

-- `err.Error()`.
unfoldable pub error_text : Driver → Error → String
error_text d event_not_found = "event not found"
error_text d capacity_full = "event capacity full"
error_text d already_registered = "already registered"
error_text d event_not_published = "event is not published"
error_text d event_not_approved = "event is not approved for listing"
error_text d event_cancelled = "event is cancelled"
error_text d event_registration_closed = "event registration is closed"
error_text d cancellation_not_allowed = "ticket cannot be cancelled after event start"
error_text d check_in_not_open_yet = "check-in is not open yet"
error_text d ticket_not_found = "ticket not found"
error_text d ticket_already_cancelled = "ticket already cancelled"
error_text d ticket_already_used = "ticket already used"
error_text d ticket_cannot_be_used = "ticket cannot be used"
error_text d ticket_expired = "ticket expired"
error_text d not_found = "event not found"
error_text d email_already_exists = "email already exists"
error_text d user_not_found = "user not found"
error_text d email_not_allowed = "email domain not allowed"
error_text d invalid_credentials = "invalid credentials"
error_text d refresh_token_invalid = "invalid refresh token"
error_text d refresh_token_consumed = "refresh token revoked or expired"
error_text d organizer_already_active = "organizer role already active"
error_text d organizer_request_not_allowed = "only active students may request organizer role"
error_text d organizer_request_invalid_body = "invalid roles request"
error_text d password_too_short = "password too short"
error_text d unsupported_role = "unsupported role"
error_text d provider_ref_exists = "provider_ref already exists"
error_text d payment_not_found = "payment not found"
error_text d payments_disabled = "payments not enabled"
error_text d missing_provider_ref = "missing provider_ref"
error_text d not_implemented = "not implemented"
error_text d no_rows = "no rows in result set"
error_text d invalid_role = "invalid role"
error_text d invalid_event_id = "invalid event id"
error_text d invalid_action = "invalid moderation action"
error_text d forbidden = "forbidden"
error_text d (driver text) = text
error_text d (violation state) = d.violation_text state

-- `errors.Is(err, context.DeadlineExceeded)`: a sentinel wraps nothing.
abbrev pub deadline_exceeded : Driver → Error → Bool
deadline_exceeded d (driver text) = d.is_deadline text
deadline_exceeded d _ = false

-- A `case` of the switch: its texts and its answer.
abbrev pub Case : Type 0
Case = List String × Failure

abbrev pub case_of : String → ℕ → String → String → Case
case_of text status code message =
    (text ∷ [], record { status = status; code = code; message = message })

abbrev pub case_of_two : String → String → ℕ → String → String → Case
case_of_two text other status code message =
    (text ∷ other ∷ [], record { status = status; code = code; message = message })

-- The cases in their order.
unfoldable pub domain_cases : List Case
domain_cases =
    case_of "email domain not allowed" 400 "EMAIL_NOT_ALLOWED" "email domain is not allowed"
    ∷ case_of_two "email already exists" "email already exists " 409 "EMAIL_EXISTS"
        "email already exists"
    ∷ case_of "invalid credentials" 401 "INVALID_CREDENTIALS" "invalid email or password"
    ∷ case_of "invalid refresh token" 401 "INVALID_REFRESH_TOKEN" "invalid refresh token"
    ∷ case_of "refresh token revoked or expired" 401 "REFRESH_TOKEN_CONSUMED"
        "refresh token already used"
    ∷ case_of "organizer role already active" 409 "ORGANIZER_ALREADY_ACTIVE"
        "organizer role is already active"
    ∷ case_of "only active students may request organizer role" 403 "ORGANIZER_REQUEST_FORBIDDEN"
        "only active students may request organizer role"
    ∷ case_of "invalid roles request" 400 "INVALID_REQUEST"
        "request exactly {\"roles\":[\"organizer\"]}"
    ∷ case_of "user not found" 404 "NOT_FOUND" "user not found"
    ∷ case_of_two "event not found" "not found" 404 "NOT_FOUND" "event not found"
    ∷ case_of_two "capacity full" "event capacity full" 409 "TICKET_CAPACITY_EXCEEDED"
        "event capacity is full"
    ∷ case_of "already registered" 409 "TICKET_ALREADY_REGISTERED" "ticket already exists"
    ∷ case_of "event is not published" 409 "EVENT_NOT_PUBLISHED"
        "event is not open for registration"
    ∷ case_of_two "event is not approved for registration" "event is not approved for listing" 409
        "EVENT_NOT_APPROVED" "event is not approved for registration"
    ∷ case_of "event is cancelled" 409 "EVENT_CANCELLED" "event is cancelled"
    ∷ case_of "event registration is closed" 409 "REGISTRATION_CLOSED"
        "registration is closed for this event"
    ∷ case_of "ticket cannot be cancelled after event start" 409 "CANCELLATION_NOT_ALLOWED"
        "ticket cannot be cancelled after the event has started"
    ∷ case_of "ticket expired" 400 "ticket_expired" "ticket has expired"
    ∷ case_of_two "check-in is not open yet" "check-in is not open yet for this event" 409
        "CHECK_IN_NOT_OPEN" "check-in is not open yet for this event"
    ∷ case_of "ticket not found" 404 "TICKET_NOT_FOUND" "ticket not found"
    ∷ case_of "ticket already cancelled" 409 "TICKET_ALREADY_CANCELLED" "ticket already cancelled"
    ∷ case_of "ticket already used" 409 "TICKET_ALREADY_USED" "ticket already used"
    ∷ case_of "ticket cannot be used" 409 "TICKET_CANNOT_BE_USED" "ticket cannot be used"
    ∷ case_of "invalid role" 400 "INVALID_ROLE" "invalid role"
    ∷ case_of "invalid event id" 400 "INVALID_ID" "invalid event id"
    ∷ case_of "invalid moderation action" 400 "INVALID_ACTION" "invalid action"
    ∷ case_of "forbidden" 403 "FORBIDDEN" "forbidden"
    ∷ case_of "not implemented" 501 "NOT_IMPLEMENTED" "not implemented"
    ∷ []

abbrev pub names : List String → String → Bool
names [] text = false
names (t ∷ ts) text = str_eq t text || names ts text

unfoldable pub switch : List Case → String → Option Failure
switch [] text = none
switch (c ∷ cs) text = let rest = switch cs text in if names c.0 text then some c.1 else rest

abbrev pub internal_error : Failure
internal_error = record { status = 500; code = "INTERNAL_ERROR"; message = "internal server error" }

abbrev pub timed_out : Failure
timed_out = record { status = 408; code = "REQUEST_TIMEOUT"; message = "request timed out" }

abbrev pub or_failure : Option Failure → Failure → Failure
or_failure none other = other
or_failure (some f) other = f

unfoldable pub map_domain_error : Driver → Error → Failure
unfolding error_text domain_cases switch contains_codes
map_domain_error d e =
    if deadline_exceeded d e
      || contains_codes (lower_codes (error_text d e)) (codes "context deadline exceeded")
    then timed_out
    else or_failure (switch domain_cases (trim_space (error_text d e))) internal_error

abbrev pub or_text : String → String → String
or_text text other = if is_empty_text text then other else text

-- The error envelope, from the status, the code and the message.
unfoldable pub write_error : ℕ → String → String → Failure
write_error status code message = record {
  status = status;
  code = or_text (trim_space code) "INTERNAL_ERROR";
  message = or_text (trim_space message) "internal server error";
}
