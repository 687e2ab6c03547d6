-- ===== src/Errors.antt =====
-- The error values of the packages (*/service/errors.go, */repository/errors.go): one constructor
-- for each sentinel that the code returns and tests for with `errors.Is`, and two for what comes
-- from below. `driver` is any other error of a statement (a lost connection, a cancelled context),
-- with its text; `violation` is a `*pgconn.PgError` of a broken constraint, with its SQLSTATE.
use senior_project.Common.{String, Bool, true, false, ◌≡◌, refl, ◌⊎◌, inl, inr, arith}

pub data Error : Type 0 where
  -- ticketing/repository/errors.go
  event_not_found capacity_full already_registered event_not_published event_not_approved : Error
  event_cancelled event_registration_closed cancellation_not_allowed check_in_not_open_yet : Error
  ticket_not_found ticket_already_cancelled ticket_already_used ticket_cannot_be_used : Error
  ticket_expired : Error
  -- events/repository/errors.go
  not_found : Error
  -- auth/repository/errors.go, auth/service/errors.go
  email_already_exists user_not_found email_not_allowed invalid_credentials : Error
  refresh_token_invalid refresh_token_consumed organizer_already_active : Error
  organizer_request_not_allowed organizer_request_invalid_body : Error
  password_too_short unsupported_role : Error
  -- payments/repository/errors.go
  provider_ref_exists payment_not_found payments_disabled missing_provider_ref : Error
  -- notifications/service/errors.go, pgx.ErrNoRows
  not_implemented no_rows : Error
  -- admin/service/errors.go
  invalid_role invalid_event_id invalid_action : Error
  forbidden : Error
  driver : String → Error
  violation : String → Error

-- A Go call that returns a value and an error.
pub data Result (A : Type 0) : Type 0 where
  ok : A → Result A
  err : Error → Result A

abbrev pub is_ok : {A : Type 0} → Result A → Bool
is_ok (ok a) = true
is_ok (err e) = false

pub Result-cases : {A : Type 0} (r : Result A) → (is_ok r ≡ false) ⊎ ((a : A) × (r ≡ ok a))
Result-cases (ok a) = inr (a, refl)
Result-cases (err e) = inl refl

pub ok_injective : {A : Type 0} {a b : A} → ok a ≡ ok b → a ≡ b
ok_injective h = ground (arith, h)
