-- ===== src/Ticketing/Passes.antt =====
-- What the bodies of `CancelTicket` and `UseTicketByQRHash` have read and written when they come to
-- their end.
use senior_project.Common.{
  ℕ, ◌<◌, ◌≤◌, String, ◌≡◌, ◌≢◌, ◌⊎◌, inl, inr, Bool, true, some, arith, first_where, count_where,
  Option-cases,
}
use senior_project.Errors.{ok, is_ok}
use senior_project.Tables.{Database, Ticket, TicketStatus, Event, EventStatus}
use senior_project.Sql.{Session, statement}
use senior_project.Sql.Laws.{statement-db}
use senior_project.Ticketing.Statements.{
  event_is, ticket_of, qr_is, active_of, cancel_active, mark_used, recompute_capacity,
  refresh_ticket,
}
use senior_project.Ticketing.Lifecycle.{
  event_end_instant, cancel_writes, cancel_body, use_writes, use_body,
}
use senior_project.Ticketing.Effects.{recounted, cancelled_in, used_in}

cancel_active-ok :
    (ticket user : ℕ) (s : Session)
    → is_ok (cancel_active ticket user s).0 ≡ true
    → ((cancel_active ticket user s).0 ≡ ok (count_where (active_of ticket user) s.db.tickets))
      × ((cancel_active ticket user s).1.db
          ≡ record s.db { tickets = cancelled_in ticket user s.db.tickets })
unfolding cancel_active
cancel_active-ok ticket user s h = ground (arith, statement-db s)

mark_used-ok :
    (ticket : ℕ) (s : Session)
    → is_ok (mark_used ticket s).0 ≡ true
    → (mark_used ticket s).1.db ≡ record s.db { tickets = used_in ticket s.db.tickets }
unfolding mark_used
mark_used-ok ticket s h = ground (arith, statement-db s)

recompute_capacity-ok :
    (event db_now : ℕ) (s : Session)
    → is_ok (recompute_capacity event db_now s).0 ≡ true
    → (recompute_capacity event db_now s).1.db ≡ recounted s.db.tickets event db_now s.db
unfolding recompute_capacity
recompute_capacity-ok event db_now s h = ground (arith, statement-db s)

refresh_ticket-db : (ticket : ℕ) (s : Session) → (refresh_ticket ticket s).1.db ≡ s.db
unfolding refresh_ticket
refresh_ticket-db ticket s = ground (arith, statement-db s)

cancel_writes-ok :
    (ticket user event db_now : ℕ) (s : Session)
    → is_ok (cancel_writes ticket user event db_now s).0 ≡ true
    → (0 < count_where (active_of ticket user) s.db.tickets)
      × ((cancel_writes ticket user event db_now s).1.db
          ≡ recounted (cancelled_in ticket user s.db.tickets) event db_now s.db)
unfolding cancel_writes
cancel_writes-ok ticket user event db_now s h =
    let s1 = (cancel_active ticket user s).1 in
    let s2 = (recompute_capacity event db_now s1).1 in
    (
      ground (arith, cancel_active-ok ticket user s),
      ground (
        arith,
        cancel_active-ok ticket user s,
        recompute_capacity-ok event db_now s1,
        refresh_ticket-db ticket s2,
      ),
    )

use_writes-ok :
    (ticket event db_now : ℕ) (s : Session)
    → is_ok (use_writes ticket event db_now s).0 ≡ true
    → (use_writes ticket event db_now s).1.db
      ≡ recounted (used_in ticket s.db.tickets) event db_now s.db
unfolding use_writes
use_writes-ok ticket event db_now s h =
    let s1 = (mark_used ticket s).1 in
    let s2 = (recompute_capacity event db_now s1).1 in
    ground (
      arith,
      mark_used-ok ticket s,
      recompute_capacity-ok event db_now s1,
      refresh_ticket-db ticket s2,
    )

-- What `CancelTicket` has seen when it gives the seat back.
pub record IsCancellable (db : Database) (ticket user now : ℕ) (forced : Bool) (t : Ticket)
    (e : Event) : Type 0 where
  pub held : first_where (ticket_of ticket user) db.tickets ≡ some t
  pub still_active : 0 < count_where (active_of ticket user) db.tickets
  pub found : first_where (event_is t.event_id) db.events ≡ some e
  pub in_time : (forced ≡ true) ⊎ (now < e.starts_at)

-- A cancellation that ends has seen an active ticket of the caller, before the event's start or by
-- force, and given the seat back.
pub cancel_body-ok :
    (user ticket now : ℕ) (forced : Bool) (db_now : ℕ) (s : Session)
    → is_ok (cancel_body user ticket now forced db_now s).0 ≡ true
    → (t : Ticket) × (e : Event) × IsCancellable s.db ticket user now forced t e
      × ((cancel_body user ticket now forced db_now s).1.db
          ≡ recounted (cancelled_in ticket user s.db.tickets) t.event_id db_now s.db)
unfolding cancel_body
cancel_body-ok user ticket now forced db_now s h =
    let s1 = (statement s).1 in
    let s2 = (statement s1).1 in
    elim (Option-cases (first_where (ticket_of ticket user) s.db.tickets)) [
      | inl e ↦ absurd (ground (arith, statement-db s))
      | inr (t, mine) ↦ elim (Option-cases (first_where (event_is t.event_id) s.db.events)) [
        | inl e ↦ absurd (ground (arith, statement-db s, statement-db s1))
        | inr (e, at) ↦
            let writes = cancel_writes-ok ticket user t.event_id db_now s2 in
            (
              t,
              e,
              record {
                held = mine;
                still_active = ground (arith, statement-db s, statement-db s1, writes);
                found = at;
                in_time = ground (arith, statement-db s, statement-db s1);
              },
              ground (arith, statement-db s, statement-db s1, writes),
            )
      ]
    ]

-- What `UseTicketByQRHash` has seen when it checks a ticket in.
pub record IsAtDoor (db : Database) (qr : String) (now : ℕ) (t : Ticket) (e : Event) : Type 0 where
  pub scanned : first_where (qr_is qr) db.tickets ≡ some t
  pub not_used : t.status ≢ TicketStatus.used
  pub not_cancelled : t.status ≢ TicketStatus.cancelled
  pub found : first_where (event_is t.event_id) db.events ≡ some e
  pub taking_place : e.status ≢ EventStatus.cancelled
  pub started : e.starts_at ≤ now
  pub not_over : now ≤ event_end_instant e.starts_at e.end_at

-- A check-in that ends has seen a ticket that is neither used nor cancelled, within the event's
-- hours, and marked it.
pub use_body-ok :
    (qr : String) (now db_now : ℕ) (s : Session)
    → is_ok (use_body qr now db_now s).0 ≡ true
    → (t : Ticket) × (e : Event) × IsAtDoor s.db qr now t e
      × ((use_body qr now db_now s).1.db
          ≡ recounted (used_in t.id s.db.tickets) t.event_id db_now s.db)
unfolding use_body
use_body-ok qr now db_now s h =
    let s1 = (statement s).1 in
    let s2 = (statement s1).1 in
    elim (Option-cases (first_where (qr_is qr) s.db.tickets)) [
      | inl e ↦ absurd (ground (arith, statement-db s))
      | inr (t, seen) ↦ elim (Option-cases (first_where (event_is t.event_id) s.db.events)) [
        | inl e ↦ absurd (ground (arith, statement-db s, statement-db s1))
        | inr (e, at) ↦ (
          t,
          e,
          record {
            scanned = seen;
            not_used = ground (arith, statement-db s);
            not_cancelled = ground (arith, statement-db s);
            found = at;
            taking_place = ground (arith, statement-db s, statement-db s1);
            started = ground (arith, statement-db s, statement-db s1);
            not_over = ground (arith, statement-db s, statement-db s1);
          },
          ground (arith, statement-db s, statement-db s1, use_writes-ok t.id t.event_id db_now s2),
        )
      ]
    ]
