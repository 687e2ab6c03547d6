-- ===== src/Seats/CheckIn.antt =====
-- What `UseTicketByQRHash` promises.
use senior_project.Common.{
  ℕ, String, Bool, not, false, ◌&&◌, ◌∙◌, ◌≤◌, ◌≡◌, refl, true, some, none, arith, first_where,
  first_where-update_where, count_where, count_where-update_where, count_where-found, ap,
}
use senior_project.Errors.{err, is_ok, ticket_already_used}
use senior_project.Tables.{Database, Ticket, TicketStatus, Event}
use senior_project.Sql.{Session, calm}
use senior_project.Sql.Laws.{statement-db, with_tx_rule, with_tx-calm_err, statement-calm}
use senior_project.Ticketing.Statements.{
  qr_is, ticket_is, seat_at, active_ticket, with_status, occupied,
}
use senior_project.Ticketing.Lifecycle.{event_end_instant, use_ticket, use_body}
use senior_project.Ticketing.Effects.{recounted, used_in}
use senior_project.Ticketing.Passes.{IsAtDoor, use_body-ok}
use senior_project.Seats.Invariant.{IsConsistent, is_expired}

module _ (qr : String) (now db_now : ℕ) (s : Session) where
  pub use_ticket-ok :
      is_ok (use_ticket qr now db_now s).0 ≡ true
      → (t : Ticket) × (e : Event) × IsAtDoor s.db qr now t e
        × ((use_ticket qr now db_now s).1.db
            ≡ recounted (used_in t.id s.db.tickets) t.event_id db_now s.db)
  unfolding use_ticket
  use_ticket-ok =
      with_tx_rule
        (λ r db.
          is_ok r ≡ true
          → (t : Ticket) × (e : Event) × IsAtDoor s.db qr now t e
            × (db ≡ recounted (used_in t.id s.db.tickets) t.event_id db_now s.db))
        (use_body qr now db_now) s (λ e h. cc)
        (λ begun same h _. rw (← same) (use_body-ok qr now db_now begun h))

  -- A scan that lets a ticket in, whatever fails around it, happens between the start and the end of
  -- the ticket's event, both included. An event without an end ends when it starts: its tickets are
  -- let in at that one instant only.
  pub use_ticket-hours :
      is_ok (use_ticket qr now db_now s).0 ≡ true
      → (t : Ticket) × (e : Event) × IsAtDoor s.db qr now t e
        × (e.starts_at ≤ now)
        × ((end_at : ℕ) → e.end_at ≡ some end_at → now ≤ end_at)
        × (e.end_at ≡ none → now ≡ e.starts_at)
  unfolding event_end_instant
  use_ticket-hours h =
      let (t, e, seen, wrote) = use_ticket-ok h in
      (
        t,
        e,
        seen,
        seen.started,
        λ end_at has_end. ground (arith, seen.not_over),
        λ no_end. ground (arith, seen.not_over, seen.started),
      )

used_body :
    (qr : String) (now db_now : ℕ) (s : Session) (t : Ticket)
    → first_where (qr_is qr) s.db.tickets ≡ some t
    → t.status ≡ TicketStatus.used
    → is_ok (use_body qr now db_now s).0 ≡ false
unfolding use_body
used_body qr now db_now s t found used = ground (arith, statement-db s, found, used)

used_body_calm :
    (qr : String) (now db_now : ℕ) (db : Database) (t : Ticket)
    → first_where (qr_is qr) db.tickets ≡ some t
    → t.status ≡ TicketStatus.used
    → use_body qr now db_now (calm db) ≡ (err ticket_already_used, calm db)
unfolding use_body
used_body_calm qr now db_now db t found used = ground (arith, statement-calm db)

-- A ticket that is used is refused, and nothing is written.
use_ticket_used :
    (qr : String) (now db_now : ℕ) (s : Session) (t : Ticket)
    → first_where (qr_is qr) s.db.tickets ≡ some t
    → t.status ≡ TicketStatus.used
    → (is_ok (use_ticket qr now db_now s).0 ≡ false)
      × ((use_ticket qr now db_now s).1.db ≡ s.db)
      × (use_ticket qr now db_now (calm s.db) ≡ (err ticket_already_used, calm s.db))
unfolding use_ticket
use_ticket_used qr now db_now s t found used =
    let (refused, kept) =
      with_tx_rule (λ r db. (is_ok r ≡ false) × (db ≡ s.db)) (use_body qr now db_now) s
        (λ e. (refl, refl))
        (λ begun same h.
          let no_more =
            used_body qr now db_now begun t
              (ap (λ db. first_where (qr_is qr) db.tickets) same ∙ found) used in
          absurd (ground (arith, h, no_more))) in
    (
      refused,
      kept,
      with_tx-calm_err (use_body qr now db_now) s.db ticket_already_used s.db
          (used_body_calm qr now db_now s.db t found used),
    )

scanned_active :
    (qr : String) (now : ℕ) (db : Database) (t : Ticket) (e : Event)
    → IsConsistent db
    → IsAtDoor db qr now t e
    → t.status ≡ TicketStatus.active
scanned_active qr now db t e v seen =
    let stored =
      count_where-found (λ x. is_expired x.status) (qr_is qr) db.tickets t seen.scanned in
    ground (arith, stored, v.not_expired, seen.not_used, seen.not_cancelled)

scanned_marked :
    (qr : String) (now : ℕ) (db : Database) (t : Ticket) (e : Event)
    → IsConsistent db
    → IsAtDoor db qr now t e
    → first_where (qr_is qr) (used_in t.id db.tickets) ≡ some (with_status TicketStatus.used t)
scanned_marked qr now db t e v seen =
    let f = with_status TicketStatus.used in
    ground (
      arith,
      first_where-update_where (qr_is qr) (active_ticket t.id) f db.tickets (λ x. refl),
      seen.scanned,
      scanned_active qr now db t e v seen,
    )

-- From consistent tables, a scan that lets a ticket in, whatever fails around it, marks that ticket
-- used and leaves every other ticket as it was, so no event's taken seats change. In any later session
-- in which the scanned code still finds that used ticket, a scan of the code is refused and writes
-- nothing, at any time and whatever fails; where nothing fails the error is that it was already used.
pub use_ticket_once :
    (qr : String) (now db_now : ℕ) (s : Session)
    → IsConsistent s.db
    → is_ok (use_ticket qr now db_now s).0 ≡ true
    → let after = (use_ticket qr now db_now s).1.db in
      (t : Ticket) × (first_where (qr_is qr) s.db.tickets ≡ some t)
      × (first_where (qr_is qr) after.tickets ≡ some (with_status TicketStatus.used t))
      × ((p : Ticket → Bool)
          → count_where (λ x. not (ticket_is t.id x) && p x) after.tickets
            ≡ count_where (λ x. not (ticket_is t.id x) && p x) s.db.tickets)
      × ((k : ℕ) → occupied k after.tickets ≡ occupied k s.db.tickets)
      × ((later : Session) (at db_later : ℕ)
          → first_where (qr_is qr) later.db.tickets ≡ some (with_status TicketStatus.used t)
          → (is_ok (use_ticket qr at db_later later).0 ≡ false)
            × ((use_ticket qr at db_later later).1.db ≡ later.db)
            × (use_ticket qr at db_later (calm later.db)
                ≡ (err ticket_already_used, calm later.db)))
use_ticket_once qr now db_now s v h =
    let (t, e, seen, wrote) = use_ticket-ok qr now db_now s h in
    let after = (use_ticket qr now db_now s).1.db in
    let tickets : after.tickets ≡ used_in t.id s.db.tickets = ap (λ db. db.tickets) wrote in
    let marked : first_where (qr_is qr) after.tickets ≡ some (with_status TicketStatus.used t) =
      rw tickets (scanned_marked qr now s.db t e v seen) in
    (
      t,
      seen.scanned,
      marked,
      λ p. rw tickets (
          count_where-update_where (λ x. not (ticket_is t.id x) && p x) (active_ticket t.id)
            (with_status TicketStatus.used) s.db.tickets (λ x here. ground (arith, here))),
      λ k. rw tickets (
          count_where-update_where (seat_at k) (active_ticket t.id) (with_status TicketStatus.used)
            s.db.tickets (λ x p. ground arith)),
      λ later at db_later found.
          use_ticket_used qr at db_later later (with_status TicketStatus.used t) found refl,
    )
