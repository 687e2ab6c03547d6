-- ===== src/Ticketing/Handlers.antt =====
-- ticketing/handler/routes.go, and `RegisterTicket` of ticketing/service/service.go.
pub mod Laws
use Prim.Native.String.{◌++◌ as join}
use senior_project.Common.{
  ⊤, ℕ, String, Bool, true, false, Option, none, some, List, [], ◌∷◌, map, first_where, trim_space,
}
use senior_project.Errors.{Error, Result, ok, err, no_rows}
use senior_project.Tables.{Ticket, TicketStatus, Event, UserRow, Role}
use senior_project.Sql.{Session, Action, pure, reading, or_raise, statement}
use senior_project.Auth.Jwt.{Claims, Jwt}
use senior_project.Http.Errors.{Driver}
use senior_project.Http.Handlers.{
  Handler, Body, need_body, or_refuse, send, ◌>>=◌, call, call_or, best_effort, ◌>>◌, invalid_id,
  unauthorized, broken,
}
use senior_project.Http.Guards.{Context, auth_middleware, guarded}
use senior_project.Ticketing.Statements.{event_is, is_user}
use senior_project.Ticketing.Registration.{register_ticket}
use senior_project.Ticketing.Lifecycle.{cancel_ticket, use_ticket}
use senior_project.Ticketing.Wallet.{TicketWithEvent, list_my_tickets}
use senior_project.Notifications.Queue.{NewNotification, enqueue}
use senior_project.Ticketing.Issue.{Issued, issue_ticket, confirm}

abbrev pub ticket_status_text : TicketStatus → String
ticket_status_text TicketStatus.active = "active"
ticket_status_text TicketStatus.used = "used"
ticket_status_text TicketStatus.cancelled = "cancelled"
ticket_status_text TicketStatus.expired = "expired"

-- `CancelTicketResponseDTO` and `UseTicketResponseDTO`.
pub record TicketDto : Type 0 where
  pub ticket_id : String
  pub event_id : String
  pub user_id : String
  pub status : String

-- `RegisterTicketResponseDTO`
pub record RegisterResponse : Type 0 where
  pub ticket : TicketDto
  pub qr_png_base64 : String
  pub qr_hash_hex : String

-- `MyTicketItemDTO`
pub record MyTicketItem : Type 0 where
  pub ticket_id : String
  pub status : String
  pub qr_hash_hex : String
  pub event_id : String
  pub event_title : String
  pub event_date : String

module _ (uuid_text : ℕ → String) where
  unfoldable pub ticket_dto : Ticket → TicketDto
  ticket_dto t = record {
    ticket_id = uuid_text t.id;
    event_id = uuid_text t.event_id;
    user_id = uuid_text t.user_id;
    status = ticket_status_text t.status;
  }

  unfoldable pub my_ticket_item : (ℕ → String) → TicketWithEvent → MyTicketItem
  my_ticket_item print_nano row = record {
    ticket_id = uuid_text row.ticket.id;
    status = ticket_status_text row.ticket.status;
    qr_hash_hex = row.ticket.qr_hash_hex;
    event_id = uuid_text row.ticket.event_id;
    event_title = row.event_title;
    event_date = print_nano row.event_starts_at;
  }

  unfoldable pub handle_my_tickets : (ℕ → String) → Context → ℕ → Handler (List MyTicketItem)
  unfolding call_or list_my_tickets my_ticket_item
  handle_my_tickets print_nano ctx now = do
    user ← or_refuse ctx.user_id (unauthorized "missing user id")
    rows ← call_or (broken "internal server error") (list_my_tickets user now)
    send (map (my_ticket_item print_nano) rows)

module _ (d : Driver) (uuid_text : ℕ → String) (parse_uuid : String → Option ℕ) where
  -- `payload` is what the random source gave, `hash` is SHA-256 in hex, `render` the QR library's image
  -- in Base64, and `print_time` the layout RFC3339.
  unfoldable pub handle_register :
      Result String
      → (String → String)
      → (String → Result String)
      → (ℕ → String)
      → Context
      → Body String
      → ℕ
      → ℕ
      → ℕ
      → ℕ
      → Handler RegisterResponse
  unfolding call best_effort issue_ticket confirm ticket_dto trim_space
  handle_register payload hash render print_time ctx body ticket note now db_now = do
    event_text ← need_body body
    event ← or_refuse (parse_uuid (trim_space event_text)) (invalid_id "invalid event_id")
    user ← or_refuse ctx.user_id (unauthorized "missing user id")
    issued ← call d (issue_ticket payload hash render user event ticket now db_now)
    best_effort (confirm uuid_text print_time user event issued note now)
    send (record {
      ticket = ticket_dto uuid_text issued.ticket;
      qr_png_base64 = issued.png;
      qr_hash_hex = issued.ticket.qr_hash_hex;
    })

  unfoldable pub handle_cancel : Context → String → ℕ → ℕ → Handler TicketDto
  unfolding call cancel_ticket ticket_dto
  handle_cancel ctx id_text now db_now = do
    ticket ← or_refuse (parse_uuid id_text) (invalid_id "invalid ticket id")
    user ← or_refuse ctx.user_id (unauthorized "missing user id")
    t ← call d (cancel_ticket user ticket now false db_now)
    send (ticket_dto uuid_text t)

  unfoldable pub handle_use : Body String → ℕ → ℕ → Handler TicketDto
  unfolding call use_ticket ticket_dto
  handle_use body now db_now = do
    qr ← need_body body
    t ← call d (use_ticket qr now db_now)
    send (ticket_dto uuid_text t)

  -- The routes; `header` is Authorization.
  module _ (parse : String → String → Option Claims) (j : Jwt) where
    unfoldable pub post_register :
        Result String
        → (String → String)
        → (String → Result String)
        → (ℕ → String)
        → String
        → Body String
        → ℕ
        → ℕ
        → ℕ
        → ℕ
        → Handler RegisterResponse
    unfolding auth_middleware guarded handle_register
    post_register payload hash render print_time header body ticket note now db_now =
        auth_middleware parse parse_uuid j header (λ ctx.
          guarded (Role.student ∷ []) ctx
            (handle_register payload hash render print_time ctx body ticket note now db_now))

    unfoldable pub post_cancel : String → String → ℕ → ℕ → Handler TicketDto
    unfolding auth_middleware guarded handle_cancel
    post_cancel header id_text now db_now =
        auth_middleware parse parse_uuid j header
          (λ ctx. guarded (Role.student ∷ []) ctx (handle_cancel ctx id_text now db_now))

    unfoldable pub post_use : String → Body String → ℕ → ℕ → Handler TicketDto
    unfolding auth_middleware guarded handle_use
    post_use header body now db_now =
        auth_middleware parse parse_uuid j header
          (λ ctx. guarded (Role.organizer ∷ Role.admin ∷ []) ctx (handle_use body now db_now))
