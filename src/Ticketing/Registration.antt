-- ===== src/Ticketing/Registration.antt =====
-- ticketing/repository/postgres.go: `RegisterTicket`.
use senior_project.Common.{⊤, ℕ, String, Bool, true, false, not, leb, ◌==◌, first_where}
use senior_project.Errors.{
  event_not_found, capacity_full, event_not_published, event_not_approved, event_cancelled,
  event_registration_closed,
}
use senior_project.Tables.{Ticket, TicketStatus, EventStatus, ModerationStatus}
use senior_project.Sql.{
  Action, pure, raise, reading, or_raise, ◌>>=◌, ◌>>◌, raise_if, statement, with_tx,
}
use senior_project.Ticketing.Statements.{event_is, insert_ticket, decrement_capacity}

-- The `switch evStatus`.
unfoldable pub check_published : EventStatus → Action ⊤
check_published EventStatus.published = pure tt
check_published EventStatus.cancelled = raise event_cancelled
check_published EventStatus.draft = raise event_not_published

abbrev pub is_approved : ModerationStatus → Bool
is_approved ModerationStatus.approved = true
is_approved _ = false

-- The body of the transaction of `RegisterTicket`; `ticket` is the new uuid, `db_now` is NOW().
unfoldable pub register_body : ℕ → ℕ → ℕ → String → ℕ → ℕ → Action Ticket
unfolding insert_ticket decrement_capacity check_published
register_body user event ticket qr now db_now = do
  statement
  row ← reading (λ db. first_where (event_is event) db.events)
  e ← or_raise row event_not_found
  check_published e.status
  raise_if (not (is_approved e.moderation_status)) event_not_approved
  raise_if (leb e.starts_at now) event_registration_closed
  raise_if (leb e.capacity_available 0) capacity_full
  out ← insert_ticket (record {
    id = ticket;
    event_id = event;
    user_id = user;
    status = TicketStatus.active;
    qr_hash_hex = qr;
    created_at = now;
  })
  affected ← decrement_capacity event db_now
  raise_if (affected == 0) capacity_full
  pure out

unfoldable pub register_ticket : ℕ → ℕ → ℕ → String → ℕ → ℕ → Action Ticket
unfolding register_body
register_ticket user event ticket qr now db_now =
    with_tx (register_body user event ticket qr now db_now)
