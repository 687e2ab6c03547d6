-- ===== src/Seats/Moves.antt =====
-- The life of a ticket (`TicketStatus` of ticketing/model/ticket.go): active, then used or cancelled
-- for good.
use senior_project.Common.{
  ℕ, ◌≤◌, ◌≡◌, ◌⊎◌, refl, Bool, true, some, arith, first_where, first_where_holds, List, [], ◌∷◌,
  count_where, update_where, delete_where, first_where-none, first_where-update_where, inl, inr,
  count_where-delete_le, count_where-found,
}
use senior_project.Tables.{Database, Ticket, TicketStatus}
use senior_project.Sql.{Session}
use senior_project.Ticketing.Statements.{ticket_is, active_of, active_ticket, with_status}
use senior_project.Ticketing.Effects.{cancelled_in, used_in}
use senior_project.Events.Repository.{ticket_for}
use senior_project.Seats.Change.{
  Change, elsewhere, registers, cancels, checks_in, creates, patches, retouches, deletes,
}
use senior_project.Seats.Invariant.{IsConsistent}
use senior_project.Seats.History.{Call, after_call, after_call-Change}

-- One step of a ticket; its id, event, user, hash and time of creation never change.
pub data Move (t t' : Ticket) : Type 0 where
  stays : t' ≡ t → Move t t'
  gets_used : t.status ≡ TicketStatus.active → t' ≡ with_status TicketStatus.used t → Move t t'
  gets_cancelled :
      t.status ≡ TicketStatus.active → t' ≡ with_status TicketStatus.cancelled t → Move t t'

delete_unique :
    (p q : Ticket → Bool) (xs : List Ticket) (t t' : Ticket)
    → count_where p xs ≤ 1
    → first_where p xs ≡ some t
    → first_where p (delete_where q xs) ≡ some t'
    → t' ≡ t
delete_unique p q [] t t' u h h' = cc
delete_unique p q (x ∷ xs) t t' u h h' = ground (
  arith,
  delete_unique p q xs t t',
  first_where-none p (delete_where q xs),
  count_where-delete_le p q xs,
)

active_of-active :
    (ticket user : ℕ) (t : Ticket) → active_of ticket user t ≡ true → t.status ≡ TicketStatus.active
active_of-active ticket user t h = ground arith

active_ticket-active :
    (ticket : ℕ) (t : Ticket) → active_ticket ticket t ≡ true → t.status ≡ TicketStatus.active
active_ticket-active ticket t h = ground arith

-- The ticket with an id after an update of other columns.
updated_cases :
    (q : Ticket → Bool) (st : TicketStatus) (xs : List Ticket) (k : ℕ) (t t' : Ticket)
    → first_where (ticket_is k) xs ≡ some t
    → first_where (ticket_is k) (update_where q (with_status st) xs) ≡ some t'
    → ((q t ≡ true) × (t' ≡ with_status st t)) ⊎ (t' ≡ t)
updated_cases q st xs k t t' h h' =
    ground (arith, first_where-update_where (ticket_is k) q (with_status st) xs (λ x. refl))

same-Move :
    (xs : List Ticket) (k : ℕ) (t t' : Ticket)
    → first_where (ticket_is k) xs ≡ some t
    → first_where (ticket_is k) xs ≡ some t'
    → Move t t'
same-Move xs k t t' h h' = Move.stays (ground arith)

cancelled-Move :
    (xs : List Ticket) (ticket user k : ℕ) (t t' : Ticket)
    → first_where (ticket_is k) xs ≡ some t
    → first_where (ticket_is k) (cancelled_in ticket user xs) ≡ some t'
    → Move t t'
cancelled-Move xs ticket user k t t' h h' =
    elim (updated_cases (active_of ticket user) TicketStatus.cancelled xs k t t' h h') [
      | inl (a, e) ↦ Move.gets_cancelled (active_of-active ticket user t a) e
      | inr e ↦ Move.stays e
    ]

used-Move :
    (xs : List Ticket) (ticket k : ℕ) (t t' : Ticket)
    → first_where (ticket_is k) xs ≡ some t
    → first_where (ticket_is k) (used_in ticket xs) ≡ some t'
    → Move t t'
used-Move xs ticket k t t' h h' =
    elim (updated_cases (active_ticket ticket) TicketStatus.used xs k t t' h h') [
      | inl (a, e) ↦ Move.gets_used (active_ticket-active ticket t a) e
      | inr e ↦ Move.stays e
    ]

registered-Move :
    (x : Ticket) (xs : List Ticket) (k : ℕ) (t t' : Ticket)
    → count_where (ticket_is x.id) xs ≡ 0
    → first_where (ticket_is k) xs ≡ some t
    → first_where (ticket_is k) (x ∷ xs) ≡ some t'
    → Move t t'
registered-Move x xs k t t' fresh h h' = Move.stays (
    ground (
      arith,
      count_where-found (ticket_is x.id) (ticket_is k) xs t h,
      first_where_holds (ticket_is k) xs h,
    ))

pub Change-Move :
    (before after : Database)
    → Change before after
    → IsConsistent before
    → (k : ℕ) (t t' : Ticket) → first_where (ticket_is k) before.tickets ≡ some t
    → first_where (ticket_is k) after.tickets ≡ some t'
    → Move t t'
Change-Move before after (elsewhere _ same) v k t t' h h' =
    same-Move before.tickets k t t' h (rw same at h')
Change-Move before after (registers x e db_now seen wrote) v k t t' h h' =
    registered-Move x before.tickets k t t' seen.new_id h (rw wrote at h')
Change-Move before after (cancels ticket user now forced x e db_now seen wrote) v k t t' h h' =
    cancelled-Move before.tickets ticket user k t t' h (rw wrote at h')
Change-Move before after (checks_in qr now x e db_now seen wrote) v k t t' h h' =
    used-Move before.tickets x.id k t t' h (rw wrote at h')
Change-Move before after (creates id n organizer db_now fresh wrote) v k t t' h h' =
    same-Move before.tickets k t t' h (rw wrote at h')
Change-Move before after (patches id p db_now wrote) v k t t' h h' =
    same-Move before.tickets k t t' h (rw wrote at h')
Change-Move before after (retouches id f keeps wrote) v k t t' h h' =
    same-Move before.tickets k t t' h (rw wrote at h')
Change-Move before after (deletes id wrote) v k t t' h h' = Move.stays (
    delete_unique (ticket_is k) (ticket_for id) before.tickets t t' (v.one_ticket k) h
      (rw wrote at h'))

-- From consistent tables, a call of any method of the ticket and event repositories, whatever fails,
-- leaves a ticket that is there before and after as it was, or takes it from active to used or from
-- active to cancelled: a used or cancelled ticket stays so, and no other column of a ticket changes.
pub after_call-Move :
    (c : Call) (s : Session)
    → IsConsistent s.db
    → (k : ℕ) (t t' : Ticket) → first_where (ticket_is k) s.db.tickets ≡ some t
    → first_where (ticket_is k) (after_call c s).db.tickets ≡ some t'
    → Move t t'
after_call-Move c s v = Change-Move s.db (after_call c s).db (after_call-Change c s) v
