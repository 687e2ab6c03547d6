-- ===== src/Seats/Events.antt =====
-- The changes of the event repository keep the tables consistent.
use senior_project.Common.{
  ℕ, ◌-◌, ◌≡◌, refl, true, false, some, ◌∷◌, arith, ◌==◌, first_where, count_where, update_where,
  delete_where, first_where_holds, count_where-le, count_where-delete_where,
  first_where-delete_where, count_where-delete_le, count_where-delete_all, first_where-none, inl,
  inr, Bool-cases,
}
use senior_project.Tables.{Database, Ticket, Event}
use senior_project.Ticketing.Statements.{event_is, ticket_is, seat_at, seat_of, qr_is, occupied}
use senior_project.Events.Repository.{
  ticket_for, without_event, NewEvent, inserted, published_event,
}
use senior_project.Events.Patch.{EventPatch, patched}
use senior_project.Seats.Change.{KeepsSeats}
use senior_project.Seats.Invariant.{
  IsConsistent, is_expired, one_event-update, no_orphans-update, seats_add_up-update,
}

seat_at-ticket_for : (k : ℕ) (t : Ticket) → seat_at k t ≡ true → ticket_for k t ≡ true
seat_at-ticket_for k t h = ground arith

module _ (db : Database) (v : IsConsistent db) where
  pub created-IsConsistent :
      (id : ℕ) (n : NewEvent) (organizer db_now : ℕ)
      → count_where (event_is id) db.events ≡ 0
      → IsConsistent
          (record db { events = inserted id (published_event n organizer) db_now ∷ db.events })
  created-IsConsistent id n organizer db_now fresh = record {
    seats_add_up = λ k e h. ground (
      arith,
      v.seats_add_up k e,
      v.no_orphans id fresh,
      count_where-le (seat_at id) (ticket_for id) db.tickets (seat_at-ticket_for id),
    );
    one_seat = v.one_seat;
    one_ticket = v.one_ticket;
    one_hash = v.one_hash;
    one_event = λ k. ground (arith, v.one_event k);
    no_orphans = λ k h. ground (arith, v.no_orphans k);
    not_expired = v.not_expired;
  }

  -- An UPDATE of one event that leaves its seats as they add up.
  updated-IsConsistent :
      (id : ℕ) (f : Event → Event)
      → ((e : Event) → (f e).id ≡ e.id)
      → ((e : Event)
          → first_where (event_is id) db.events ≡ some e
          → (f e).capacity_available ≡ (f e).capacity_total - occupied id db.tickets)
      → IsConsistent (record db { events = update_where (event_is id) f db.events })
  updated-IsConsistent id f same_id add_up = record {
    seats_add_up = seats_add_up-update db (event_is id) f same_id db.tickets (λ k e h.
        ground (arith, v.seats_add_up k e h, add_up e, first_where_holds (event_is k) db.events h));
    one_seat = v.one_seat;
    one_ticket = v.one_ticket;
    one_hash = v.one_hash;
    one_event = one_event-update db (event_is id) f same_id v;
    no_orphans = λ k.
        no_orphans-update db (event_is id) f same_id db.tickets v k (λ none_yet gone. none_yet);
    not_expired = v.not_expired;
  }

  pub patched-IsConsistent :
      (id : ℕ) (p : EventPatch) (db_now : ℕ)
      → IsConsistent (record db {
        events = update_where (event_is id) (patched p (occupied id db.tickets) db_now) db.events;
      })
  patched-IsConsistent id p db_now =
      updated-IsConsistent id (patched p (occupied id db.tickets) db_now) (λ e. refl)
        (λ e h. ground (arith, v.seats_add_up id e h))

  pub retouched-IsConsistent :
      (id : ℕ) (f : Event → Event)
      → KeepsSeats f
      → IsConsistent (record db { events = update_where (event_is id) f db.events })
  retouched-IsConsistent id f keeps =
      updated-IsConsistent id f keeps.same_id
        (λ e h. rw (keeps.same_total e, keeps.same_available e) (v.seats_add_up id e h))

  deleted-same :
      (id k : ℕ) (x : Event) → (k == id) ≡ true → event_is k x ≡ true → event_is id x ≡ true
  deleted-same id k x same h = ground arith

  deleted-same_for :
      (id k : ℕ) (t : Ticket) → (k == id) ≡ true → ticket_for k t ≡ true → ticket_for id t ≡ true
  deleted-same_for id k t same h = ground arith

  deleted-others :
      (id k : ℕ) (x : Event) → (k == id) ≡ false → event_is k x ≡ true → event_is id x ≡ false
  deleted-others id k x other h = ground arith

  deleted-others_for :
      (id k : ℕ) (t : Ticket) → (k == id) ≡ false → ticket_for k t ≡ true → ticket_for id t ≡ false
  deleted-others_for id k t other h = ground arith

  deleted-seats :
      (id k : ℕ) (e : Event)
      → first_where (event_is k) (delete_where (event_is id) db.events) ≡ some e
      → e.capacity_available
        ≡ e.capacity_total - occupied k (delete_where (ticket_for id) db.tickets)
  deleted-seats id k e h = elim (Bool-cases (k == id)) [
    | inl same ↦
        let gone =
          count_where-delete_all (event_is k) (event_is id) db.events
            (λ x. deleted-same id k x same) in
        ground (arith, first_where-none (event_is k) (delete_where (event_is id) db.events) gone)
    | inr other ↦
        let found =
          first_where-delete_where (event_is k) (event_is id) db.events
            (λ x. deleted-others id k x other) in
        let seats =
          count_where-delete_where (seat_at k) (ticket_for id) db.tickets
            (λ t p. deleted-others_for id k t other (seat_at-ticket_for k t p)) in
        rw seats (v.seats_add_up k e (rw found at h))
  ]

  deleted-no_orphans :
      (id k : ℕ)
      → count_where (event_is k) (delete_where (event_is id) db.events) ≡ 0
      → count_where (ticket_for k) (delete_where (ticket_for id) db.tickets) ≡ 0
  deleted-no_orphans id k h = elim (Bool-cases (k == id)) [
    | inl same ↦
        count_where-delete_all (ticket_for k) (ticket_for id) db.tickets
          (λ t. deleted-same_for id k t same)
    | inr other ↦
        let kept =
          count_where-delete_where (event_is k) (event_is id) db.events
            (λ x. deleted-others id k x other) in
        omega (
          arith,
          v.no_orphans k (rw kept at h),
          count_where-delete_le (ticket_for k) (ticket_for id) db.tickets,
        )
  ]

  pub deleted-IsConsistent : (id : ℕ) → IsConsistent (without_event id db)
  deleted-IsConsistent id = record {
    seats_add_up = deleted-seats id;
    one_seat = λ k user. omega (
      arith,
      v.one_seat k user,
      count_where-delete_le (seat_of k user) (ticket_for id) db.tickets,
    );
    one_ticket = λ k.
        omega
          (arith, v.one_ticket k, count_where-delete_le (ticket_is k) (ticket_for id) db.tickets);
    one_hash = λ qr.
        omega (arith, v.one_hash qr, count_where-delete_le (qr_is qr) (ticket_for id) db.tickets);
    one_event = λ k.
        omega (arith, v.one_event k, count_where-delete_le (event_is k) (event_is id) db.events);
    no_orphans = deleted-no_orphans id;
    not_expired = omega (
      arith,
      v.not_expired,
      count_where-delete_le (λ t. is_expired t.status) (ticket_for id) db.tickets,
    );
  }
