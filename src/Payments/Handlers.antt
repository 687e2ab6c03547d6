-- ===== src/Payments/Handlers.antt =====
-- payments/handler/routes.go. The routes are over the stub; the handlers are the same over any
-- repository.
use Prim.Native.String.{◌++◌ as join}
use senior_project.Common.{
  ⊤, ℕ, ◌+◌, ◌-◌, ◌*◌, String, Bool, false, not, ◌&&◌, leb, if◌then◌else◌, Option, none, some, List,
  [], ◌∷◌, codes, same_codes, str_eq, trim_space,
}
use senior_project.Errors.{Error, payments_disabled, payment_not_found}
use senior_project.Tables.{Payment, PaymentStatus, Role}
use senior_project.Auth.Jwt.{Claims, Jwt}
use senior_project.Http.Errors.{Failure}
use senior_project.Http.Handlers.{
  Handler, Body, need_body, refuse_if, or_refuse, send, ◌>>=◌, ◌>>◌, translate, invalid_id,
  unauthorized, bad_request, broken,
}
use senior_project.Http.Guards.{Context, auth_middleware, guarded}
use senior_project.Payments.Repository.{PaymentRepository}
use senior_project.Payments.Service.{initiate, webhook}

pub record InitiateRequest : Type 0 where
  pub event_id : String
  pub amount : ℕ
  pub currency : String

pub record InitiateResponse : Type 0 where
  pub payment_id : String
  pub provider_ref : String
  pub provider_url : String

pub record WebhookRequest : Type 0 where
  pub provider_ref : String
  pub status : String

-- `model.PaymentStatus(req.Status)`
abbrev pub payment_status_of : String → PaymentStatus
payment_status_of text =
    if str_eq text "pending"
    then PaymentStatus.pending
    else if str_eq text "succeeded"
    then PaymentStatus.succeeded
    else if str_eq text "failed"
    then PaymentStatus.failed
    else if str_eq text "canceled"
    then PaymentStatus.canceled
    else PaymentStatus.other text

abbrev pub not_enabled : Failure
not_enabled = record {
  status = 501;
  code = "NOT_IMPLEMENTED";
  message = "payments are not enabled yet";
}

unfoldable pub initiate_failure : Error → Failure
initiate_failure payments_disabled = not_enabled
initiate_failure e = broken "payment initiation failed"

unfoldable pub webhook_failure : Error → Failure
webhook_failure payments_disabled = not_enabled
webhook_failure payment_not_found = record {
  status = 404;
  code = "NOT_FOUND";
  message = "payment not found";
}
webhook_failure e = broken "payment webhook failed"

-- `hex.DecodeString`: pairs of digits, of either case.
abbrev pub hex_digit : ℕ → Option ℕ
hex_digit c =
    if leb 48 c && leb c 57
    then some (c - 48)
    else if leb 97 c && leb c 102
    then some (c - 87)
    else if leb 65 c && leb c 70
    then some (c - 55)
    else none

abbrev pub hex_byte : Option ℕ → Option ℕ → Option (List ℕ) → Option (List ℕ)
hex_byte (some high) (some low) (some rest) = some ((high * 16 + low) ∷ rest)
hex_byte _ _ _ = none

unfoldable pub hex_decode : List ℕ → Option (List ℕ)
hex_decode [] = some []
hex_decode (c ∷ []) = none
hex_decode (c ∷ e ∷ rest) = hex_byte (hex_digit c) (hex_digit e) (hex_decode rest)

-- `hmac.Equal`, of two byte strings.
abbrev pub is_signed_by : List ℕ → Option (List ℕ) → Bool
is_signed_by expected none = false
is_signed_by expected (some provided) = same_codes provided expected

-- `hmac secret body` is the HMAC-SHA256 of the body.
unfoldable pub verify_webhook_signature :
    (String → String → List ℕ) → String → String → String → Bool
unfolding hex_decode trim_space
verify_webhook_signature hmac secret body provided =
    if str_eq secret ""
    then false
    else is_signed_by (hmac secret body) (hex_decode (codes (trim_space provided)))

module _ (repo : PaymentRepository) where
  -- `decode` is the JSON decoder and the validator.
  unfoldable pub handle_webhook :
      (String → String → List ℕ)
      → (String → Body WebhookRequest)
      → String
      → Option String
      → String
      → ℕ
      → ℕ
      → Handler ⊤
  unfolding verify_webhook_signature webhook webhook_failure
  handle_webhook hmac decode secret sent_body signature now db_now = do
    body ← or_refuse sent_body (bad_request "failed to read request body")
    refuse_if (str_eq signature "") (record {
      status = 401;
      code = "MISSING_SIGNATURE";
      message = "missing X-Signature header";
    })
    refuse_if (not (verify_webhook_signature hmac secret body signature)) (record {
      status = 403;
      code = "INVALID_SIGNATURE";
      message = "webhook signature verification failed";
    })
    req ← need_body (decode body)
    p ← (λ s.
        translate webhook_failure
          (webhook repo req.provider_ref (payment_status_of req.status) now db_now s))
    send tt

-- The provider's URL is the service's, made of the reference.
module _ (repo : PaymentRepository) (uuid_text : ℕ → String) (parse_uuid : String → Option ℕ) where
  abbrev pub initiate_response : Payment → InitiateResponse
  initiate_response p = record {
    payment_id = uuid_text p.id;
    provider_ref = p.provider_ref;
    provider_url = join "https://payments.example/checkout?provider_ref=" p.provider_ref;
  }

  -- `ref` and `id` are the new reference and the new uuid.
  unfoldable pub handle_initiate :
      Context → Body InitiateRequest → String → ℕ → ℕ → Handler InitiateResponse
  unfolding initiate trim_space initiate_failure
  handle_initiate ctx body ref id now = do
    req ← need_body body
    event ← or_refuse (parse_uuid (trim_space req.event_id)) (invalid_id "invalid event_id")
    user ← or_refuse ctx.user_id (unauthorized "missing user id")
    p ← (λ s.
        translate initiate_failure (initiate repo user event req.amount req.currency ref id now s))
    send (initiate_response p)

  -- POST /payments/initiate
  unfoldable pub post_initiate :
      (String → String → Option Claims)
      → Jwt
      → String
      → Body InitiateRequest
      → String
      → ℕ
      → ℕ
      → Handler InitiateResponse
  unfolding auth_middleware guarded handle_initiate
  post_initiate parse j header body ref id now = auth_middleware parse parse_uuid j header (λ ctx.
      guarded (Role.student ∷ Role.organizer ∷ Role.admin ∷ []) ctx
        (handle_initiate ctx body ref id now))
