-- ===== src/Seats/Tickets.antt =====
-- The changes of the ticket repository keep the tables consistent.
use senior_project.Common.{
  ℕ, String, ◌-◌, ◌≤◌, ◌≡◌, refl, Bool, true, false, some, List, ◌∷◌, arith, ◌==◌, if◌then◌else◌,
  first_where, count_where, first_where_holds, count_where-le, count_where-update_where,
  count_where-update_unique, first_where-narrow, ◌∙◌, count_where-found,
}
use senior_project.Tables.{Database, Ticket, TicketStatus, Event}
use senior_project.Ticketing.Statements.{
  event_is, ticket_is, ticket_of, seat_at, seat_of, qr_is, has_seat, take_seat, active_of,
  active_ticket, with_status, occupied, recomputed,
}
use senior_project.Ticketing.Effects.{IsAdmitted, registered, recounted, cancelled_in, used_in}
use senior_project.Ticketing.Passes.{IsCancellable}
use senior_project.Events.Repository.{ticket_for}
use senior_project.Seats.Invariant.{
  IsConsistent, is_expired, one_event-update, no_orphans-update, seats_add_up-update,
}
use text.Mathlib.TextEquality.{eq_iff}

module _ (db : Database) (v : IsConsistent db) where
  registered-seats :
      (t : Ticket) (e : Event) (db_now : ℕ) (admitted : IsAdmitted db t e) (k : ℕ) (e0 : Event)
      → first_where (event_is k) db.events ≡ some e0
      → let e' = if has_seat t.event_id e0 then take_seat db_now e0 else e0 in
        e'.capacity_available ≡ e'.capacity_total - occupied k (t ∷ db.tickets)
  registered-seats t e db_now admitted k e0 h =
      ground (arith, v.seats_add_up k e0 h, first_where_holds (event_is k) db.events h)

  registered-one_seat :
      (t : Ticket) (e : Event)
      → IsAdmitted db t e
      → (event user : ℕ) → count_where (seat_of event user) (t ∷ db.tickets) ≤ 1
  registered-one_seat t e admitted event user = ground (arith, v.one_seat event user)

  registered-one_hash :
      (t : Ticket) (e : Event)
      → IsAdmitted db t e
      → (qr : String) → count_where (qr_is qr) (t ∷ db.tickets) ≤ 1
  registered-one_hash t e admitted qr = ground (arith, v.one_hash qr, eq_iff t.qr_hash_hex qr)

  pub registered-IsConsistent :
      (t : Ticket) (e : Event) (db_now : ℕ)
      → IsAdmitted db t e
      → IsConsistent (registered t db_now db)
  registered-IsConsistent t e db_now admitted = record {
    seats_add_up =
        seats_add_up-update db (has_seat t.event_id) (take_seat db_now) (λ e. refl) (t ∷ db.tickets)
          (registered-seats t e db_now admitted);
    one_seat = registered-one_seat t e admitted;
    one_ticket = λ k. ground (arith, v.one_ticket k, admitted.new_id);
    one_hash = registered-one_hash t e admitted;
    one_event = one_event-update db (has_seat t.event_id) (take_seat db_now) (λ e. refl) v;
    no_orphans = λ k.
        no_orphans-update db (has_seat t.event_id) (take_seat db_now) (λ e. refl) (t ∷ db.tickets) v
          k
          (λ none_yet gone. ground (
            arith,
            first_where_holds (event_is t.event_id) db.events admitted.found,
            count_where-found (event_is k) (event_is t.event_id) db.events e,
          ));
    not_expired = ground (arith, v.not_expired, admitted.is_active);
  }

  -- Tables whose tickets have changed their status only, with the seats of one event counted anew.
  recounted-IsConsistent :
      (ts : List Ticket) (event db_now : ℕ)
      → ((k : ℕ) → count_where (ticket_is k) ts ≡ count_where (ticket_is k) db.tickets)
      → ((qr : String) → count_where (qr_is qr) ts ≡ count_where (qr_is qr) db.tickets)
      → ((k : ℕ) → count_where (ticket_for k) ts ≡ count_where (ticket_for k) db.tickets)
      → ((k user : ℕ) → count_where (seat_of k user) ts ≤ count_where (seat_of k user) db.tickets)
      → ((k : ℕ) → (k == event) ≡ false → occupied k ts ≡ occupied k db.tickets)
      → count_where (λ t. is_expired t.status) ts ≡ 0
      → IsConsistent (recounted ts event db_now db)
  recounted-IsConsistent ts event db_now ids hashes events seats others stored = record {
    seats_add_up =
        seats_add_up-update db (event_is event) f (λ e. refl) ts
          (λ k e h.
            ground
              (arith, v.seats_add_up k e h, others k, first_where_holds (event_is k) db.events h));
    one_seat = λ k user. ground (arith, seats k user, v.one_seat k user);
    one_ticket = λ k. rw (ids k) (v.one_ticket k);
    one_hash = λ qr. rw (hashes qr) (v.one_hash qr);
    one_event = one_event-update db (event_is event) f (λ e. refl) v;
    no_orphans = λ k.
        no_orphans-update db (event_is event) f (λ e. refl) ts v k
          (λ none_yet gone. rw (events k) none_yet);
    not_expired = stored;
  }
    where
      f : Event → Event
      f = recomputed (occupied event ts) db_now

active_of-ticket_of :
    (ticket user : ℕ) (x : Ticket) → active_of ticket user x ≡ true → ticket_of ticket user x ≡ true
active_of-ticket_of ticket user x h = ground arith

ticket_of-ticket_is :
    (ticket user : ℕ) (x : Ticket) → ticket_of ticket user x ≡ true → ticket_is ticket x ≡ true
ticket_of-ticket_is ticket user x h = ground arith

module _ (db : Database) (v : IsConsistent db) where
  -- The ticket that a cancellation finds is the one row that it updates.
  pub cancelled-row :
      (ticket user now : ℕ) (forced : Bool) (t : Ticket) (e : Event)
      → IsCancellable db ticket user now forced t e
      → (count_where (active_of ticket user) db.tickets ≤ 1)
        × (first_where (active_of ticket user) db.tickets ≡ some t)
  cancelled-row ticket user now forced t e seen =
      let of_one =
        count_where-le (ticket_of ticket user) (ticket_is ticket) db.tickets
          (ticket_of-ticket_is ticket user) in
      let active_one =
        count_where-le (active_of ticket user) (ticket_of ticket user) db.tickets
          (active_of-ticket_of ticket user) in
      (
        omega (arith, of_one, active_one, v.one_ticket ticket),
        first_where-narrow (ticket_of ticket user) (active_of ticket user) db.tickets
            (active_of-ticket_of ticket user) (omega (arith, of_one, v.one_ticket ticket)) seen.held
            seen.still_active,
      )

  pub cancelled-IsConsistent :
      (ticket user now : ℕ) (forced : Bool) (t : Ticket) (e : Event) (db_now : ℕ)
      → IsCancellable db ticket user now forced t e
      → IsConsistent (recounted (cancelled_in ticket user db.tickets) t.event_id db_now db)
  cancelled-IsConsistent ticket user now forced t e db_now seen =
      let (one, row) = cancelled-row ticket user now forced t e seen in
      recounted-IsConsistent db v (cancelled_in ticket user db.tickets) t.event_id db_now
        (λ k. count_where-update_where (ticket_is k) q f db.tickets (λ x h. refl))
        (λ qr. count_where-update_where (qr_is qr) q f db.tickets (λ x h. refl))
        (λ k. count_where-update_where (ticket_for k) q f db.tickets (λ x h. refl))
        (λ k u.
          ground (arith, count_where-update_unique (seat_of k u) q f db.tickets {x = t} one row))
        (λ k other.
          ground (arith, count_where-update_unique (seat_at k) q f db.tickets {x = t} one row))
        (count_where-update_where (λ x. is_expired x.status) q f db.tickets (λ x h. ground arith)
          ∙ v.not_expired)
    where
      q : Ticket → Bool
      q = active_of ticket user

      f : Ticket → Ticket
      f = with_status TicketStatus.cancelled

  pub checked_in-IsConsistent :
      (t : Ticket) (db_now : ℕ)
      → IsConsistent (recounted (used_in t.id db.tickets) t.event_id db_now db)
  checked_in-IsConsistent t db_now =
      recounted-IsConsistent db v (used_in t.id db.tickets) t.event_id db_now
        (λ k. count_where-update_where (ticket_is k) q f db.tickets (λ x h. refl))
        (λ qr. count_where-update_where (qr_is qr) q f db.tickets (λ x h. refl))
        (λ k. count_where-update_where (ticket_for k) q f db.tickets (λ x h. refl))
        (λ k u.
          omega
            (arith, count_where-update_where (seat_of k u) q f db.tickets (λ x h. ground arith)))
        (λ k other. count_where-update_where (seat_at k) q f db.tickets (λ x h. ground arith))
        (count_where-update_where (λ x. is_expired x.status) q f db.tickets (λ x h. ground arith)
          ∙ v.not_expired)
    where
      q : Ticket → Bool
      q = active_ticket t.id

      f : Ticket → Ticket
      f = with_status TicketStatus.used
