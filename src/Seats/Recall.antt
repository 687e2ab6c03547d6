-- ===== src/Seats/Recall.antt =====
-- `CancelTicket` where nothing fails, in both of its ends.
use senior_project.Common.{
  ℕ, ◌<◌, ◌≡◌, ◌⊎◌, refl, Bool, true, some, arith, first_where, count_where, first_where_holds,
  first_where-update_where, count_where-found,
}
use senior_project.Errors.{ok, err, ticket_already_cancelled}
use senior_project.Tables.{Database, Ticket, TicketStatus, Event}
use senior_project.Sql.{calm}
use senior_project.Sql.Laws.{with_tx-calm, with_tx-calm_err, statement-calm}
use senior_project.Ticketing.Statements.{
  event_is, ticket_is, ticket_of, active_of, with_status, cancel_active, recompute_capacity,
  refresh_ticket,
}
use senior_project.Ticketing.Lifecycle.{cancel_ticket, cancel_body, cancel_writes}
use senior_project.Ticketing.Effects.{recounted, cancelled_in}

module _ (user ticket event : ℕ) (db_now : ℕ) (db : Database) (t : Ticket) where
  cancel_writes-calm :
      first_where (ticket_is ticket) db.tickets ≡ some t
      → active_of ticket user t ≡ true
      → cancel_writes ticket user event db_now (calm db) ≡ (
        ok (with_status TicketStatus.cancelled t),
        calm (recounted (cancelled_in ticket user db.tickets) event db_now db),
      )
  unfolding cancel_writes cancel_active recompute_capacity refresh_ticket
  cancel_writes-calm held active =
      let ts = cancelled_in ticket user db.tickets in
      ground (
        arith,
        statement-calm db,
        statement-calm (record db { tickets = ts }),
        statement-calm (recounted ts event db_now db),
        count_where-found (active_of ticket user) (ticket_is ticket) db.tickets t held,
        first_where-update_where (ticket_is ticket) (active_of ticket user)
            (with_status TicketStatus.cancelled) db.tickets (λ x. refl),
      )

  cancel_writes_none :
      count_where (active_of ticket user) db.tickets ≡ 0
      → cancel_writes ticket user event db_now (calm db) ≡ (
        err ticket_already_cancelled,
        calm (record db { tickets = cancelled_in ticket user db.tickets }),
      )
  unfolding cancel_writes cancel_active
  cancel_writes_none gone = ground (arith, statement-calm db)

module _ (user ticket now : ℕ) (forced : Bool) (db_now : ℕ) (db : Database) (t : Ticket)
    (e : Event) where
  cancel_body-calm :
      first_where (ticket_of ticket user) db.tickets ≡ some t
      → first_where (ticket_is ticket) db.tickets ≡ some t
      → t.status ≡ TicketStatus.active
      → first_where (event_is t.event_id) db.events ≡ some e
      → (forced ≡ true) ⊎ (now < e.starts_at)
      → cancel_body user ticket now forced db_now (calm db) ≡ (
        ok (with_status TicketStatus.cancelled t),
        calm (recounted (cancelled_in ticket user db.tickets) t.event_id db_now db),
      )
  unfolding cancel_body
  cancel_body-calm mine held active found in_time = ground (
    arith,
    statement-calm db,
    first_where_holds (ticket_of ticket user) db.tickets mine,
    cancel_writes-calm user ticket t.event_id db_now db t held,
  )

  cancel_body_final :
      first_where (ticket_of ticket user) db.tickets ≡ some t
      → t.status ≡ TicketStatus.used
      → count_where (active_of ticket user) db.tickets ≡ 0
      → first_where (event_is t.event_id) db.events ≡ some e
      → (forced ≡ true) ⊎ (now < e.starts_at)
      → cancel_body user ticket now forced db_now (calm db) ≡ (
        err ticket_already_cancelled,
        calm (record db { tickets = cancelled_in ticket user db.tickets }),
      )
  unfolding cancel_body
  cancel_body_final mine used gone found in_time =
      ground (arith, statement-calm db, cancel_writes_none user ticket t.event_id db_now db t gone)

  -- An active ticket of the caller is cancelled, before the event's start or by force.
  pub cancel_ticket_active :
      first_where (ticket_of ticket user) db.tickets ≡ some t
      → first_where (ticket_is ticket) db.tickets ≡ some t
      → t.status ≡ TicketStatus.active
      → first_where (event_is t.event_id) db.events ≡ some e
      → (forced ≡ true) ⊎ (now < e.starts_at)
      → cancel_ticket user ticket now forced db_now (calm db) ≡ (
        ok (with_status TicketStatus.cancelled t),
        calm (recounted (cancelled_in ticket user db.tickets) t.event_id db_now db),
      )
  unfolding cancel_ticket
  cancel_ticket_active mine held active found in_time =
      with_tx-calm (cancel_body user ticket now forced db_now) db
        (with_status TicketStatus.cancelled t)
        (recounted (cancelled_in ticket user db.tickets) t.event_id db_now db)
        (cancel_body-calm mine held active found in_time)

  -- A used ticket is final: the answer is that it is cancelled already, and nothing is written.
  pub cancel_ticket_used :
      first_where (ticket_of ticket user) db.tickets ≡ some t
      → t.status ≡ TicketStatus.used
      → count_where (active_of ticket user) db.tickets ≡ 0
      → first_where (event_is t.event_id) db.events ≡ some e
      → (forced ≡ true) ⊎ (now < e.starts_at)
      → cancel_ticket user ticket now forced db_now (calm db)
        ≡ (err ticket_already_cancelled, calm db)
  unfolding cancel_ticket
  cancel_ticket_used mine used gone found in_time =
      with_tx-calm_err (cancel_body user ticket now forced db_now) db ticket_already_cancelled
        (record db { tickets = cancelled_in ticket user db.tickets })
        (cancel_body_final mine used gone found in_time)
