-- ===== src/Ticketing/Lifecycle.antt =====
-- ticketing/repository/postgres.go: `CancelTicket` and `UseTicketByQRHash`, with `EventEndInstant`
-- of ticketing/model/ticket.go.
use senior_project.Common.{
  ℕ, String, Bool, true, false, not, ◌&&◌, Option, none, some, ltb, leb, ◌==◌, first_where,
}
use senior_project.Errors.{
  cancellation_not_allowed, check_in_not_open_yet, ticket_not_found, ticket_already_cancelled,
  ticket_already_used, ticket_cannot_be_used, ticket_expired, no_rows,
}
use senior_project.Tables.{Ticket, TicketStatus, EventStatus}
use senior_project.Sql.{Action, reading, or_raise, ◌>>=◌, ◌>>◌, raise_if, statement, with_tx}
use senior_project.Ticketing.Statements.{
  event_is, ticket_of, qr_is, cancel_active, mark_used, recompute_capacity, refresh_ticket,
}

abbrev pub is_cancelled : TicketStatus → Bool
is_cancelled TicketStatus.cancelled = true
is_cancelled _ = false

abbrev pub is_used : TicketStatus → Bool
is_used TicketStatus.used = true
is_used _ = false

abbrev pub is_called_off : EventStatus → Bool
is_called_off EventStatus.cancelled = true
is_called_off _ = false

-- The second half of that transaction, from `Mark ticket as cancelled` on.
unfoldable pub cancel_writes : ℕ → ℕ → ℕ → ℕ → Action Ticket
cancel_writes ticket user event db_now = do
  affected ← cancel_active ticket user
  raise_if (affected == 0) ticket_already_cancelled
  recompute_capacity event db_now
  refresh_ticket ticket

-- The body of the transaction of `CancelTicket`; `forced` is allowAfterEventStart.
unfoldable pub cancel_body : ℕ → ℕ → ℕ → Bool → ℕ → Action Ticket
cancel_body user ticket now forced db_now = do
  statement
  row ← reading (λ db. first_where (ticket_of ticket user) db.tickets)
  t ← or_raise row ticket_not_found
  raise_if (is_cancelled t.status) ticket_already_cancelled
  statement
  event_row ← reading (λ db. first_where (event_is t.event_id) db.events)
  e ← or_raise event_row no_rows
  raise_if (not forced && leb e.starts_at now) cancellation_not_allowed
  cancel_writes ticket user t.event_id db_now

unfoldable pub cancel_ticket : ℕ → ℕ → ℕ → Bool → ℕ → Action Ticket
cancel_ticket user ticket now forced db_now = with_tx (cancel_body user ticket now forced db_now)

unfoldable pub event_end_instant : ℕ → Option ℕ → ℕ
event_end_instant starts_at none = starts_at
event_end_instant starts_at (some end_at) = end_at

-- The second half of that transaction, from `Mark ticket as used` on.
unfoldable pub use_writes : ℕ → ℕ → ℕ → Action Ticket
use_writes ticket event db_now = do
  mark_used ticket
  recompute_capacity event db_now
  refresh_ticket ticket

-- The body of the transaction of `UseTicketByQRHash`.
unfoldable pub use_body : String → ℕ → ℕ → Action Ticket
use_body qr now db_now = do
  statement
  row ← reading (λ db. first_where (qr_is qr) db.tickets)
  t ← or_raise row ticket_not_found
  raise_if (is_used t.status) ticket_already_used
  raise_if (is_cancelled t.status) ticket_cannot_be_used
  statement
  event_row ← reading (λ db. first_where (event_is t.event_id) db.events)
  e ← or_raise event_row no_rows
  raise_if (is_called_off e.status) ticket_cannot_be_used
  raise_if (ltb now e.starts_at) check_in_not_open_yet
  raise_if (ltb (event_end_instant e.starts_at e.end_at) now) ticket_expired
  use_writes t.id t.event_id db_now

unfoldable pub use_ticket : String → ℕ → ℕ → Action Ticket
use_ticket qr now db_now = with_tx (use_body qr now db_now)
