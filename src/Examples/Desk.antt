-- ===== src/Examples/Desk.antt =====
-- The theorems on tickets, events and payments at the small tables.
use senior_project.Common.{
  Bool, not, false, arith, ◌&&◌, ℕ, ◌+◌, ◌≤◌, ◌<◌, ◌≡◌, refl, ◌≢◌, ◌↔◌, ◌⊎◌, true, first_where,
  count_where, some, none, List, inl,
}
use senior_project.Errors.{ok, err, is_ok, ticket_already_used}
use senior_project.Tables.{Database, Ticket, TicketStatus, Event, PaymentStatus}
use senior_project.Sql.{Session, calm}
use senior_project.Ticketing.Statements.{
  event_is, ticket_is, ticket_of, seat_of, qr_is, take_seat, with_status, occupied, recomputed,
}
use senior_project.Ticketing.Registration.{register_ticket}
use senior_project.Ticketing.Lifecycle.{use_ticket}
use senior_project.Ticketing.Effects.{new_ticket, IsAdmitted, registered}
use senior_project.Ticketing.Passes.{IsAtDoor}
use senior_project.Seats.Invariant.{IsConsistent}
use senior_project.Seats.History.{Call, after_call, after_calls, after_calls-IsConsistent}
use senior_project.Seats.Admission.{register_ticket_iff, register_ticket-seats}
use senior_project.Seats.Return.{cancel_ticket-seats}
use senior_project.Seats.CheckIn.{use_ticket-hours, use_ticket_once}
use senior_project.Ticketing.Wallet.{TicketWithEvent, list_my_tickets, shown_to}
use senior_project.Seats.Shown.{is_in_order, list_my_tickets_lem, overlay_ticket_expiry-refused}
use senior_project.Seats.Moves.{Move, after_call-Move}
use senior_project.Payments.Repository.{postgres, with_payment_status}
use senior_project.Payments.Service.{webhook}
use senior_project.Payments.Release.{IsReleased, noted, webhook-IsReleased}
use senior_project.Examples.World.{
  start, start-IsConsistent, opening, open_world, taken_world, the_ticket, day,
  open_world-IsConsistent, taken_world-IsConsistent, registered-is_ok, cancelled-is_ok,
  returned_world, used_world, used-is_ok, now_used, was_active, the_payment, paying_world,
  paying_world-IsConsistent, the_taken_event, scanned, held, is_over,
}

after_calls-IsConsistent_example : IsConsistent (after_calls day (calm open_world)).db
after_calls-IsConsistent_example =
    after_calls-IsConsistent day (calm open_world)
      (after_calls-IsConsistent opening (calm start) start-IsConsistent)

register_ticket_iff_example :
    ((is_ok (register_ticket 7 1 20 "aa" 50 51 (calm open_world)).0 ≡ true)
      ↔ ((e : Event) × IsAdmitted open_world (new_ticket 7 1 20 "aa" 50) e))
    × (is_ok (register_ticket 7 1 20 "aa" 50 51 (calm open_world)).0 ≡ true
        → register_ticket 7 1 20 "aa" 50 51 (calm open_world) ≡ (
          ok (new_ticket 7 1 20 "aa" 50),
          calm (registered (new_ticket 7 1 20 "aa" 50) 51 open_world),
        ))
register_ticket_iff_example = register_ticket_iff 7 1 20 "aa" 50 51 open_world

register_ticket-seats_example :
    (e : Event) × (first_where (event_is 1) open_world.events ≡ some e)
    × (first_where (event_is 1) taken_world.events ≡ some (take_seat 51 e))
    × (occupied 1 taken_world.tickets ≡ occupied 1 open_world.tickets + 1)
    × (occupied 1 taken_world.tickets ≤ e.capacity_total)
    × ((k : ℕ) → k ≢ 1 → occupied k taken_world.tickets ≡ occupied k open_world.tickets)
unfolding after_calls after_call
register_ticket-seats_example =
    register_ticket-seats 7 1 20 "aa" 50 51 (calm open_world) open_world-IsConsistent
      registered-is_ok

cancel_ticket-seats_example :
    (t : Ticket) × (e : Event) × (first_where (ticket_of 20 7) taken_world.tickets ≡ some t)
    × (t.status ≡ TicketStatus.active)
    × (first_where (event_is t.event_id) taken_world.events ≡ some e)
    × ((false ≡ true) ⊎ (60 < e.starts_at))
    × (count_where (seat_of t.event_id 7) returned_world.tickets ≡ 0)
    × (occupied t.event_id returned_world.tickets + 1 ≡ occupied t.event_id taken_world.tickets)
    × (first_where (event_is t.event_id) returned_world.events
        ≡ some (recomputed (occupied t.event_id returned_world.tickets) 61 e))
    × ((k : ℕ)
        → k ≢ t.event_id
        → occupied k returned_world.tickets ≡ occupied k taken_world.tickets)
cancel_ticket-seats_example =
    cancel_ticket-seats 7 20 60 false 61 (calm taken_world) taken_world-IsConsistent cancelled-is_ok

use_ticket_once_example :
    (t : Ticket) × (first_where (qr_is "aa") taken_world.tickets ≡ some t)
    × (first_where (qr_is "aa") used_world.tickets ≡ some (with_status TicketStatus.used t))
    × ((p : Ticket → Bool)
        → count_where (λ x. not (ticket_is t.id x) && p x) used_world.tickets
          ≡ count_where (λ x. not (ticket_is t.id x) && p x) taken_world.tickets)
    × ((k : ℕ) → occupied k used_world.tickets ≡ occupied k taken_world.tickets)
    × ((later : Session) (at db_later : ℕ)
        → first_where (qr_is "aa") later.db.tickets ≡ some (with_status TicketStatus.used t)
        → (is_ok (use_ticket "aa" at db_later later).0 ≡ false)
          × ((use_ticket "aa" at db_later later).1.db ≡ later.db)
          × (use_ticket "aa" at db_later (calm later.db)
              ≡ (err ticket_already_used, calm later.db)))
use_ticket_once_example =
    use_ticket_once "aa" 120 121 (calm taken_world) taken_world-IsConsistent used-is_ok

use_ticket-hours_example :
    (t : Ticket) × (e : Event) × IsAtDoor taken_world "aa" 120 t e
    × (e.starts_at ≤ 120)
    × ((end_at : ℕ) → e.end_at ≡ some end_at → 120 ≤ end_at)
    × (e.end_at ≡ none → 120 ≡ e.starts_at)
use_ticket-hours_example = use_ticket-hours "aa" 120 121 (calm taken_world) used-is_ok

after_call-Move_example : Move the_ticket (with_status TicketStatus.used the_ticket)
unfolding after_call
after_call-Move_example =
    after_call-Move (Call.check_in "aa" 120 121) (calm taken_world) taken_world-IsConsistent 20
      the_ticket (with_status TicketStatus.used the_ticket) was_active now_used

webhook-IsReleased_example :
    (after : Database) × (webhook postgres "ref-1" PaymentStatus.failed 55 56 (calm paying_world)
      ≡ (ok (with_payment_status PaymentStatus.failed 55 the_payment), calm after))
    × IsReleased
        (with_payment_status PaymentStatus.failed 55 the_payment)
        (noted "ref-1" PaymentStatus.failed 55 paying_world)
        after
webhook-IsReleased_example =
    webhook-IsReleased "ref-1" PaymentStatus.failed 55 56 paying_world the_payment
      paying_world-IsConsistent refl (inl refl)

list_my_tickets_lem_example :
    (rows : List TicketWithEvent) × (list_my_tickets 7 300 (calm taken_world)
      ≡ (ok rows, calm taken_world))
    × (is_in_order rows ≡ true)
    × ((k : ℕ)
        → count_where (λ r. ticket_is k r.ticket) rows
          ≡ count_where (λ t. ticket_is k t && shown_to 7 t) taken_world.tickets)
list_my_tickets_lem_example = list_my_tickets_lem 300 7 taken_world taken_world-IsConsistent

overlay_ticket_expiry-refused_example : is_ok (use_ticket "aa" 301 302 (calm taken_world)).0 ≡ false
overlay_ticket_expiry-refused_example =
    overlay_ticket_expiry-refused 300 the_ticket the_taken_event 301 302 (calm taken_world) scanned
      held refl is_over (omega arith)
