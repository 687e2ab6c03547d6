-- ===== src/Ticketing/Queries.antt =====
-- ticketing/repository/postgres.go: `GetByEventAndUser`.
use senior_project.Common.{ℕ, first_where}
use senior_project.Errors.{ticket_not_found}
use senior_project.Tables.{Ticket}
use senior_project.Sql.{Action, reading, or_raise, ◌>>=◌, ◌>>◌, statement}
use senior_project.Ticketing.Statements.{seat_of}

unfoldable pub get_by_event_and_user : ℕ → ℕ → Action Ticket
get_by_event_and_user event user = do
  statement
  row ← reading (λ db. first_where (seat_of event user) db.tickets)
  or_raise row ticket_not_found
