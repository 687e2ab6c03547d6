-- ===== src/Notifications/Handlers.antt =====
-- notifications/handler/routes.go. The route has no guard: whoever reaches the API may ask for an email.
use senior_project.Common.{⊤, ℕ, String, false, ltb, ◌==◌, ◌≡◌, none, if◌then◌else◌, arith}
use senior_project.Http.Errors.{Driver, Failure, map_domain_error}
use senior_project.Http.Handlers.{Handler, Body, need_body, translate, broken, send, ◌>>=◌, ◌>>◌}
use senior_project.Notifications.Queue.{NewNotification, enqueue}

pub record SendEmailRequest : Type 0 where
  pub to : String
  pub title : String
  pub body : String

abbrev pub requested : SendEmailRequest → NewNotification
requested req = record {
  id = none;
  kind = "email";
  to = req.to;
  title = req.title;
  body = req.body;
  created_at = none;
}

-- What becomes of the failure that `MapDomainError` found.
unfoldable pub send_failure : Failure → Failure
send_failure f =
    if ltb f.status 500
    then (if f.status == 501
        then record { status = f.status; code = f.code; message = "send-email not implemented yet" }
        else f)
    else broken "failed to enqueue email"

-- Nothing is answered with 501, although the code has a text for it: the test for 501 stands behind
-- the one for less than 500.
send_failure-status : (f : Failure) → ((send_failure f).status == 501) ≡ false
unfolding send_failure
send_failure-status f = ground arith

-- The text of a body that is no JSON is "invalid json", otherwise it is the validator's. `note` is the
-- new uuid.
unfoldable pub handle_send_email : Driver → Body SendEmailRequest → ℕ → ℕ → Handler ⊤
unfolding enqueue send_failure translate
handle_send_email d body note now = do
  req ← need_body body
  (λ s. translate (λ e. send_failure (map_domain_error d e)) (enqueue (requested req) note now s))
  send tt
