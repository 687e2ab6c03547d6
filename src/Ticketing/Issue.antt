-- ===== src/Ticketing/Issue.antt =====
-- `RegisterTicket` of ticketing/service/service.go, and the confirmation email of
-- ticketing/handler/routes.go.
use Prim.Native.String.{◌++◌ as join}
use Prim.Native.Char.{Char, code}
use senior_project.Common.{◌==◌, if◌then◌else◌, is_empty_text, ⊤, ℕ, String, none, first_where}
use senior_project.Errors.{Result, no_rows}
use senior_project.Tables.{Ticket, Event}
use senior_project.Sql.{Action, pure, reading, or_raise, ◌>>=◌, ◌>>◌, statement}
use senior_project.Ticketing.Statements.{event_is, is_user}
use senior_project.Ticketing.Registration.{register_ticket}
use senior_project.Notifications.Queue.{NewNotification, enqueue}

-- The ticket and its QR image.
pub record Issued : Type 0 where
  pub ticket : Ticket
  pub png : String

unfoldable pub lifted_result : {A : Type 0} → Result A → Action A
lifted_result r s = (r, s)

-- `payload` is what the random source gave, `hash` is SHA-256 in hex and `render` the QR library's
-- image in Base64. An image that cannot be made is an error, and the ticket stays.
unfoldable pub issue_ticket :
    Result String → (String → String) → (String → Result String) → ℕ → ℕ → ℕ → ℕ → ℕ → Action Issued
unfolding lifted_result register_ticket
issue_ticket payload hash render user event ticket now db_now = do
  text ← lifted_result payload
  t ← register_ticket user event ticket (hash text) now db_now
  png ← lifted_result (render text)
  pure (record { ticket = t; png = png })

-- `html.EscapeString`
abbrev pub escaped_char : Char → String
escaped_char c =
    if code c == 38
    then "&amp;"
    else if code c == 39
    then "&#39;"
    else if code c == 60
    then "&lt;"
    else if code c == 62
    then "&gt;"
    else if code c == 34
    then "&#34;"
    else String.◌∷◌ c ""

unfoldable pub escape_string : String → String
escape_string String.[] = ""
escape_string (String.◌∷◌ c s) = join (escaped_char c) (escape_string s)

-- The pieces of the template around its four values.
abbrev pub html_head : String
html_head =
    "<!doctype html>\n<html>\n  <body style=\"font-family: Arial, sans-serif; line-height: 1.4;\">\n    <h2>Ticket confirmation</h2>\n    <p><b>Event:</b> "

abbrev pub html_date : String
html_date = "</p>\n    <p><b>Date/time (UTC):</b> "

abbrev pub html_id : String
html_id = "</p>\n    <p><b>Ticket ID:</b> "

abbrev pub html_image : String
html_image = "</p>\n    "

abbrev pub html_end : String
html_end = "\n    <p>You can also access your QR code in the app.</p>\n  </body>\n</html>"

-- The image is left out where there is none.
abbrev pub qr_image : String → String
qr_image png =
    if is_empty_text png
    then ""
    else join "<p><img alt=\"Ticket QR\" src=\"data:image/png;base64,"
        (join png "\" style=\"max-width:256px;height:auto\"/></p>")

-- `TicketConfirmationEmailHTML`, of the title, the start, the ticket's id and the image; `print_time` is
-- the layout RFC3339.
unfoldable pub confirmation_html : (ℕ → String) → String → ℕ → String → String → String
unfolding escape_string
confirmation_html print_time title starts_at ticket png = join html_head (
    join (escape_string title) (
      join html_date (
        join (print_time starts_at) (
          join html_id
            (join (escape_string ticket) (join html_image (join (qr_image png) html_end)))))))

abbrev pub confirmation : (ℕ → String) → (ℕ → String) → String → Event → Issued → NewNotification
confirmation uuid_text print_time email e issued = record {
  id = none;
  kind = "email";
  to = email;
  title = join "Ticket confirmed: " e.title;
  body = confirmation_html print_time e.title e.starts_at (uuid_text issued.ticket.id) issued.png;
  created_at = none;
}

-- The email is asked for with two queries of its own; whatever fails on the way is only logged.
unfoldable pub confirm : (ℕ → String) → (ℕ → String) → ℕ → ℕ → Issued → ℕ → ℕ → Action ⊤
unfolding enqueue confirmation_html
confirm uuid_text print_time user event issued note now = do
  statement
  user_row ← reading (λ db. first_where (is_user user) db.users)
  u ← or_raise user_row no_rows
  statement
  event_row ← reading (λ db. first_where (event_is event) db.events)
  e ← or_raise event_row no_rows
  enqueue (confirmation uuid_text print_time u.email e issued) note now
