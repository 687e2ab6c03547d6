-- ===== src/Payments/Signed.antt =====
-- What the webhook does without a valid signature.
use senior_project.Common.{
  ℕ, String, true, false, ◌≡◌, ◌⊎◌, inl, inr, Option, some, List, arith, Option-cases, Bool-cases,
  str_eq,
}
use senior_project.Sql.{Session}
use senior_project.Http.Handlers.{is_sent, Body}
use senior_project.Payments.Repository.{PaymentRepository}
use senior_project.Payments.Handlers.{handle_webhook, verify_webhook_signature, WebhookRequest}

secret_known :
    (hmac : String → String → List ℕ) (secret body signature : String)
    → verify_webhook_signature hmac secret body signature ≡ true
    → str_eq secret "" ≡ false
unfolding verify_webhook_signature
secret_known hmac secret body signature h = ground (arith, h)

-- POST /payments/webhook over any repository and under any faults: it is refused with no table changed,
-- or the body was read, the server has a secret, and the header is a signature of the body under it.
pub handle_webhook-signed :
    (repo : PaymentRepository) (hmac : String → String → List ℕ)
    (decode : String → Body WebhookRequest) (secret : String) (sent_body : Option String)
    (signature : String) (now db_now : ℕ) (s : Session)
    → let answer = handle_webhook repo hmac decode secret sent_body signature now db_now s in
      ((is_sent answer.0 ≡ false) × (answer.1.db ≡ s.db))
      ⊎ ((body : String) × (sent_body ≡ some body)
          × (str_eq secret "" ≡ false)
          × (verify_webhook_signature hmac secret body signature ≡ true))
unfolding handle_webhook
handle_webhook-signed repo hmac decode secret sent_body signature now db_now s =
    elim (Option-cases sent_body) [
      | inl a ↦ inl (ground (arith, a), ground (arith, a))
      | inr (body, a) ↦ elim (Bool-cases (verify_webhook_signature hmac secret body signature)) [
        | inl b ↦ inr (body, a, secret_known hmac secret body signature b, b)
        | inr b ↦ inl (ground (arith, a, b), ground (arith, a, b))
      ]
    ]
