-- ===== src/Payments/Release.antt =====
-- A failed or cancelled payment gives the seat back.
use senior_project.Common.{
  ℕ, String, ◌≡◌, ◌⊎◌, inl, inr, refl, true, some, none, arith, first_where, count_where,
  update_where, ◌∙◌, count_where-none, count_where-le, Option-cases,
}
use senior_project.Errors.{ok}
use senior_project.Tables.{Database, Payment, PaymentStatus, Ticket, TicketStatus}
use senior_project.Sql.{calm}
use senior_project.Sql.Laws.{statement-calm}
use senior_project.Ticketing.Statements.{seat_of}
use senior_project.Ticketing.Queries.{get_by_event_and_user}
use senior_project.Ticketing.Lifecycle.{cancel_ticket}
use senior_project.Seats.Invariant.{IsConsistent}
use senior_project.Seats.Recall.{cancel_ticket_active, cancel_ticket_used}
use senior_project.Payments.Repository.{
  ref_is, with_payment_status, postgres, update_status_by_provider_ref,
}
use senior_project.Payments.Service.{release_seat, after_lookup, after_cancel, settle, webhook}
use senior_project.Payments.Holding.{
  active_at, released, active_at-seat_of, event_known, own_row, held_status, none_active,
  released-no_active, used-no_active,
}

-- What a released payment leaves behind.
pub record IsReleased (p : Payment) (before after : Database) : Type 0 where
  -- The tables are as they were, or the user's active ticket is cancelled and its seat counted back.
  pub how :
      (after ≡ before)
      ⊎ ((t : Ticket) × (db_now : ℕ) × (first_where (seat_of p.event_id p.user_id) before.tickets
            ≡ some t)
          × (t.status ≡ TicketStatus.active)
          × (after ≡ released db_now t before))
  pub no_active : count_where (active_at p.event_id p.user_id) after.tickets ≡ 0

module _ (p : Payment) (now db_now : ℕ) (db : Database) (v : IsConsistent db) where
  lookup_none :
      first_where (seat_of p.event_id p.user_id) db.tickets ≡ none
      → release_seat p now db_now (calm db) ≡ (ok p, calm db)
  unfolding release_seat after_lookup get_by_event_and_user
  lookup_none h = ground (arith, statement-calm db)

  lookup_some :
      (t : Ticket)
      → first_where (seat_of p.event_id p.user_id) db.tickets ≡ some t
      → release_seat p now db_now (calm db)
        ≡ after_cancel p (cancel_ticket p.user_id t.id now true db_now (calm db))
  unfolding release_seat after_lookup get_by_event_and_user
  lookup_some t h = ground (arith, statement-calm db)

  active_case :
      (t : Ticket)
      → first_where (seat_of p.event_id p.user_id) db.tickets ≡ some t
      → t.status ≡ TicketStatus.active
      → release_seat p now db_now (calm db) ≡ (ok p, calm (released db_now t db))
  unfolding after_cancel
  active_case t held active =
      let (e, found) = event_known db v (seat_of p.event_id p.user_id) t held in
      let (row, mine) = own_row db v (seat_of p.event_id p.user_id) t held in
      ground (
        arith,
        lookup_some t held,
        held_status db p.event_id p.user_id t held,
        cancel_ticket_active t.user_id t.id now true db_now db t e mine row active found (inl refl),
      )

  used_case :
      (t : Ticket)
      → first_where (seat_of p.event_id p.user_id) db.tickets ≡ some t
      → t.status ≡ TicketStatus.used
      → release_seat p now db_now (calm db) ≡ (ok p, calm db)
  unfolding after_cancel
  used_case t held used =
      let (e, found) = event_known db v (seat_of p.event_id p.user_id) t held in
      let (row, mine) = own_row db v (seat_of p.event_id p.user_id) t held in
      ground (
        arith,
        lookup_some t held,
        held_status db p.event_id p.user_id t held,
        cancel_ticket_used t.user_id t.id now true db_now db t e mine used
            (none_active db v t mine used) found (inl refl),
      )

  -- Releasing the seat of a payment succeeds in every case.
  pub release_seat_lem :
      (after : Database) × (release_seat p now db_now (calm db) ≡ (ok p, calm after))
      × IsReleased p db after
  release_seat_lem = elim (Option-cases (first_where (seat_of p.event_id p.user_id) db.tickets)) [
    | inl e ↦ (
      db,
      lookup_none e,
      record {
        how = inl refl;
        no_active = omega (
          arith,
          count_where-none (seat_of p.event_id p.user_id) db.tickets e,
          count_where-le (active_at p.event_id p.user_id) (seat_of p.event_id p.user_id) db.tickets
              (active_at-seat_of p.event_id p.user_id),
        );
      },
    )
    | inr (t, held) ↦ elim (held_status db p.event_id p.user_id t held).2 [
      | inl active ↦ (
        released db_now t db,
        active_case t held active,
        record {
          how = inr (t, db_now, held, active, refl);
          no_active = released-no_active db v p.event_id p.user_id t held active;
        },
      )
      | inr used ↦ (
        db,
        used_case t held used,
        record { how = inl refl; no_active = used-no_active db v p.event_id p.user_id t held used },
      )
    ]
  ]

-- The tables with the new status of the payment.
abbrev pub noted : String → PaymentStatus → ℕ → Database → Database
noted ref st now db = record db {
  payments = update_where (ref_is ref) (with_payment_status st now) db.payments;
}

noted-IsConsistent :
    (ref : String) (st : PaymentStatus) (now : ℕ) (db : Database)
    → IsConsistent db
    → IsConsistent (noted ref st now db)
noted-IsConsistent ref st now db v = record {
  seats_add_up = v.seats_add_up;
  one_seat = v.one_seat;
  one_ticket = v.one_ticket;
  one_hash = v.one_hash;
  one_event = v.one_event;
  no_orphans = v.no_orphans;
  not_expired = v.not_expired;
}

status_noted :
    (ref : String) (st : PaymentStatus) (now db_now : ℕ) (db : Database) (p : Payment)
    → first_where (ref_is ref) db.payments ≡ some p
    → (st ≡ PaymentStatus.failed) ⊎ (st ≡ PaymentStatus.canceled)
    → webhook postgres ref st now db_now (calm db)
      ≡ release_seat (with_payment_status st now p) now db_now (calm (noted ref st now db))
unfolding webhook settle postgres update_status_by_provider_ref
status_noted ref st now db_now db p found bad = ground (arith, statement-calm db)

-- From consistent tables and with no fault, the webhook of a failed or cancelled payment that the
-- Postgres repository knows answers with the payment in its new status, and the user of the payment
-- has no active ticket for its event any more: the active one is cancelled and its seat counted
-- back, also after the event's start, and where the user has none, or has used it already, events
-- and tickets are as they were.
pub webhook-IsReleased :
    (ref : String) (st : PaymentStatus) (now db_now : ℕ) (db : Database) (p : Payment)
    → IsConsistent db
    → first_where (ref_is ref) db.payments ≡ some p
    → (st ≡ PaymentStatus.failed) ⊎ (st ≡ PaymentStatus.canceled)
    → let p' = with_payment_status st now p in
      (after : Database) × (webhook postgres ref st now db_now (calm db) ≡ (ok p', calm after))
      × IsReleased p' (noted ref st now db) after
webhook-IsReleased ref st now db_now db p v found bad =
    let p' = with_payment_status st now p in
    let (after, answer, done) =
      release_seat_lem p' now db_now (noted ref st now db) (noted-IsConsistent ref st now db v) in
    (after, status_noted ref st now db_now db p found bad ∙ answer, done)
