-- ===== src/Seats/Return.antt =====
-- What `CancelTicket` promises.
use senior_project.Common.{
  ℕ, ◌+◌, ◌<◌, ◌≡◌, ◌≢◌, ◌⊎◌, refl, Bool, true, some, arith, first_where, first_where_holds,
  first_where-update_where, count_where-update_unique, count_where, ap,
}
use senior_project.Errors.{is_ok}
use senior_project.Tables.{Ticket, TicketStatus, Event}
use senior_project.Sql.{Session}
use senior_project.Sql.Laws.{with_tx_rule}
use senior_project.Ticketing.Statements.{
  event_is, ticket_of, active_of, seat_of, seat_at, with_status, occupied, recomputed,
}
use senior_project.Ticketing.Lifecycle.{cancel_ticket, cancel_body}
use senior_project.Ticketing.Effects.{recounted, cancelled_in}
use senior_project.Ticketing.Passes.{IsCancellable, cancel_body-ok}
use senior_project.Seats.Invariant.{IsConsistent}
use senior_project.Seats.Tickets.{cancelled-row}

module _ (user ticket now : ℕ) (forced : Bool) (db_now : ℕ) (s : Session) where
  pub cancel_ticket-ok :
      is_ok (cancel_ticket user ticket now forced db_now s).0 ≡ true
      → (t : Ticket) × (e : Event) × IsCancellable s.db ticket user now forced t e
        × ((cancel_ticket user ticket now forced db_now s).1.db
            ≡ recounted (cancelled_in ticket user s.db.tickets) t.event_id db_now s.db)
  unfolding cancel_ticket
  cancel_ticket-ok =
      with_tx_rule
        (λ r db.
          is_ok r ≡ true
          → (t : Ticket) × (e : Event) × IsCancellable s.db ticket user now forced t e
            × (db ≡ recounted (cancelled_in ticket user s.db.tickets) t.event_id db_now s.db))
        (cancel_body user ticket now forced db_now) s (λ e h. cc)
        (λ begun same h _. rw (← same) (cancel_body-ok user ticket now forced db_now begun h))

  -- From consistent tables, a cancellation that is answered with a ticket, whatever fails around it,
  -- found an active ticket of the caller with that id, before the event's start unless it was
  -- forced; it leaves the caller without a seat of that event, gives exactly one seat back to the
  -- event (its availability is recounted) and none to the other events.
  pub cancel_ticket-seats :
      IsConsistent s.db
      → is_ok (cancel_ticket user ticket now forced db_now s).0 ≡ true
      → let after = (cancel_ticket user ticket now forced db_now s).1.db in
        (t : Ticket) × (e : Event) × (first_where (ticket_of ticket user) s.db.tickets ≡ some t)
        × (t.status ≡ TicketStatus.active)
        × (first_where (event_is t.event_id) s.db.events ≡ some e)
        × ((forced ≡ true) ⊎ (now < e.starts_at))
        × (count_where (seat_of t.event_id user) after.tickets ≡ 0)
        × (occupied t.event_id after.tickets + 1 ≡ occupied t.event_id s.db.tickets)
        × (first_where (event_is t.event_id) after.events
            ≡ some (recomputed (occupied t.event_id after.tickets) db_now e))
        × ((k : ℕ) → k ≢ t.event_id → occupied k after.tickets ≡ occupied k s.db.tickets)
  cancel_ticket-seats v h =
      let (t, e, seen, wrote) = cancel_ticket-ok h in
      let (one, row) = cancelled-row s.db v ticket user now forced t e seen in
      let q = active_of ticket user in
      let f = with_status TicketStatus.cancelled in
      let after = (cancel_ticket user ticket now forced db_now s).1.db in
      let tickets : after.tickets ≡ cancelled_in ticket user s.db.tickets =
        ap (λ db. db.tickets) wrote in
      let active = first_where_holds q s.db.tickets row in
      (
        t,
        e,
        seen.held,
        ground (arith, active),
        seen.found,
        seen.in_time,
        rw tickets (
            ground (
              arith,
              active,
              v.one_seat t.event_id user,
              count_where-update_unique (seat_of t.event_id user) q f s.db.tickets {x = t} one row,
            )),
        rw tickets (
            ground (
              arith,
              active,
              count_where-update_unique (seat_at t.event_id) q f s.db.tickets {x = t} one row,
            )),
        rw wrote (
            ground (
              arith,
              seen.found,
              first_where_holds (event_is t.event_id) s.db.events seen.found,
              first_where-update_where (event_is t.event_id) (event_is t.event_id)
                  (recomputed (occupied t.event_id (cancelled_in ticket user s.db.tickets)) db_now)
                  s.db.events (λ x. refl),
            )),
        λ k other. rw tickets (
            ground (arith, count_where-update_unique (seat_at k) q f s.db.tickets {x = t} one row)),
      )
