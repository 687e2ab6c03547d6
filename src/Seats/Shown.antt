-- ===== src/Seats/Shown.antt =====
-- What a user sees of the tickets.
use senior_project.Common.{
  ℕ, ◌+◌, ◌≤◌, ◌≡◌, refl, Bool, true, false, none, some, List, [], ◌∷◌, arith, ◌&&◌, first_where,
  select_where, count_where, map, bit, count_where-none, Option-cases, inl, inr, Bool-cases, ap,
  sym, ◌∙◌,
}
use senior_project.Errors.{ok, is_ok}
use senior_project.Tables.{Database, Ticket, TicketStatus, Event}
use senior_project.Sql.{calm, Session}
use senior_project.Sql.Laws.{statement-calm}
use senior_project.Ticketing.Statements.{event_is, ticket_is, qr_is}
use senior_project.Ticketing.Lifecycle.{use_ticket}
use senior_project.Seats.CheckIn.{use_ticket-ok}
use senior_project.Ticketing.Wallet.{
  TicketWithEvent, shown_to, with_event, joined, comes_first, insert_in_order, in_order,
  get_user_tickets, overlay_ticket_expiry, list_my_tickets,
}
use senior_project.Events.Repository.{ticket_for}
use senior_project.Seats.Invariant.{IsConsistent}

-- No later row comes strictly before.
abbrev pub first_of : TicketWithEvent → List TicketWithEvent → Bool
first_of a [] = true
first_of a (b ∷ bs) = comes_first a b && first_of a bs

abbrev pub is_in_order : List TicketWithEvent → Bool
is_in_order [] = true
is_in_order (a ∷ rows) = first_of a rows && is_in_order rows

comes_first_trans :
    (a b c : TicketWithEvent)
    → comes_first a b ≡ true
    → comes_first b c ≡ true
    → comes_first a c ≡ true
comes_first_trans a b c h h' = ground arith

comes_first_total : (a b : TicketWithEvent) → comes_first a b ≡ false → comes_first b a ≡ true
comes_first_total a b h = ground arith

first_of_trans :
    (a b : TicketWithEvent) (cs : List TicketWithEvent)
    → comes_first a b ≡ true
    → first_of b cs ≡ true
    → first_of a cs ≡ true
first_of_trans a b [] h f = refl
first_of_trans a b (c ∷ cs) h f = ground (arith, comes_first_trans a b c h, first_of_trans a b cs h)

first_of-insert :
    (b a : TicketWithEvent) (cs : List TicketWithEvent)
    → comes_first b a ≡ true
    → first_of b cs ≡ true
    → first_of b (insert_in_order a cs) ≡ true
unfolding insert_in_order
first_of-insert b a [] h f = ground (arith, h)
first_of-insert b a (c ∷ cs) h f = ground (arith, h, f, first_of-insert b a cs h)

insert-ordered :
    (a : TicketWithEvent) (bs : List TicketWithEvent)
    → is_in_order bs ≡ true
    → is_in_order (insert_in_order a bs) ≡ true
unfolding insert_in_order
insert-ordered a [] h = refl
insert-ordered a (b ∷ bs) h = elim (Bool-cases (comes_first a b)) [
  | inl e ↦ ground (arith, e, h, first_of_trans a b bs e)
  | inr e ↦
      ground (arith, e, h, insert-ordered a bs, first_of-insert b a bs (comes_first_total a b e))
]

in_order-ordered : (rows : List TicketWithEvent) → is_in_order (in_order rows) ≡ true
unfolding in_order
in_order-ordered [] = refl
in_order-ordered (a ∷ rows) = insert-ordered a (in_order rows) (in_order-ordered rows)

insert-count :
    (p : TicketWithEvent → Bool) (a : TicketWithEvent) (bs : List TicketWithEvent)
    → count_where p (insert_in_order a bs) ≡ bit (p a) + count_where p bs
unfolding insert_in_order
insert-count p a [] = refl
insert-count p a (b ∷ bs) = ground (arith, insert-count p a bs)

in_order-count :
    (p : TicketWithEvent → Bool) (rows : List TicketWithEvent)
    → count_where p (in_order rows) ≡ count_where p rows
unfolding in_order
in_order-count p [] = refl
in_order-count p (a ∷ rows) =
    ground (arith, insert-count p a (in_order rows), in_order-count p rows)

select-count :
    (p q : Ticket → Bool) (ts : List Ticket)
    → count_where p (select_where q ts) ≡ count_where (λ t. p t && q t) ts
select-count p q [] = refl
select-count p q (t ∷ ts) = ground (arith, select-count p q ts)

select-count-le :
    (p q : Ticket → Bool) (ts : List Ticket) → count_where p (select_where q ts) ≤ count_where p ts
select-count-le p q [] = omega arith
select-count-le p q (t ∷ ts) = ground (arith, select-count-le p q ts)

-- Every ticket of the list has its event.
joined-count :
    (p : Ticket → Bool) (es : List Event) (ts : List Ticket)
    → ((k : ℕ) → count_where (event_is k) es ≡ 0 → count_where (ticket_for k) ts ≡ 0)
    → count_where (λ r. p r.ticket) (joined es ts) ≡ count_where p ts
unfolding joined
joined-count p es [] h = refl
joined-count p es (t ∷ ts) h =
    let rest = joined-count p es ts (λ k none_there. ground (arith, h k none_there)) in
    elim (Option-cases (first_where (event_is t.event_id) es)) [
      | inl e ↦ absurd (ground (arith, h t.event_id (count_where-none (event_is t.event_id) es e)))
      | inr (x, e) ↦ ground (arith, e, rest)
    ]

module _ (now : ℕ) where
  overlay-same :
      (r : TicketWithEvent)
      → ((overlay_ticket_expiry now r).ticket.id ≡ r.ticket.id)
        × ((overlay_ticket_expiry now r).ticket.created_at ≡ r.ticket.created_at)
        × ((overlay_ticket_expiry now r).event_starts_at ≡ r.event_starts_at)
  unfolding overlay_ticket_expiry
  overlay-same r = ground arith

  overlaid-first :
      (a : TicketWithEvent) (rows : List TicketWithEvent)
      → first_of (overlay_ticket_expiry now a) (map (overlay_ticket_expiry now) rows)
        ≡ first_of a rows
  overlaid-first a [] = refl
  overlaid-first a (b ∷ rows) =
      ground (arith, overlay-same a, overlay-same b, overlaid-first a rows)

  overlaid-ordered :
      (rows : List TicketWithEvent)
      → is_in_order (map (overlay_ticket_expiry now) rows) ≡ is_in_order rows
  overlaid-ordered [] = refl
  overlaid-ordered (a ∷ rows) = ground (arith, overlaid-first a rows, overlaid-ordered rows)

  overlaid-count :
      (k : ℕ) (rows : List TicketWithEvent)
      → count_where (λ r. ticket_is k r.ticket) (map (overlay_ticket_expiry now) rows)
        ≡ count_where (λ r. ticket_is k r.ticket) rows
  overlaid-count k [] = refl
  overlaid-count k (a ∷ rows) = ground (arith, overlay-same a, overlaid-count k rows)

  -- From consistent tables and with no fault, a user's list of tickets is in the order of the events'
  -- starts, of two tickets for the same start the newer first, and shows each ticket that is theirs
  -- and active or used exactly once, and no other.
  pub list_my_tickets_lem :
      (user : ℕ) (db : Database)
      → IsConsistent db
      → (rows : List TicketWithEvent) × (list_my_tickets user now (calm db) ≡ (ok rows, calm db))
        × (is_in_order rows ≡ true)
        × ((k : ℕ)
            → count_where (λ r. ticket_is k r.ticket) rows
              ≡ count_where (λ t. ticket_is k t && shown_to user t) db.tickets)
  unfolding list_my_tickets get_user_tickets
  list_my_tickets_lem user db v =
      let mine = select_where (shown_to user) db.tickets in
      let found = joined db.events mine in
      (
        map (overlay_ticket_expiry now) (in_order found),
        ground (arith, statement-calm db),
        overlaid-ordered (in_order found) ∙ in_order-ordered found,
        λ k.
            overlaid-count k (in_order found)
            ∙ in_order-count (λ r. ticket_is k r.ticket) found
            ∙ joined-count (ticket_is k) db.events mine (λ j none_there. omega (
              arith,
              v.no_orphans j none_there,
              select-count-le (ticket_for j) (shown_to user) db.tickets,
            ))
            ∙ select-count (ticket_is k) (shown_to user) db.tickets,
      )

  -- An active ticket that the list shows as expired at some clock is refused at the door at that
  -- clock and later, whatever fails, where the tables still have the ticket and its event as shown.
  pub overlay_ticket_expiry-refused :
      (t : Ticket) (e : Event) (later db_now : ℕ) (s : Session)
      → first_where (qr_is t.qr_hash_hex) s.db.tickets ≡ some t
      → first_where (event_is t.event_id) s.db.events ≡ some e
      → t.status ≡ TicketStatus.active
      → (overlay_ticket_expiry now (with_event t e)).ticket.status ≡ TicketStatus.expired
      → now ≤ later
      → is_ok (use_ticket t.qr_hash_hex later db_now s).0 ≡ false
  unfolding overlay_ticket_expiry
  overlay_ticket_expiry-refused t e later db_now s scanned found active shown le =
      elim (Bool-cases (is_ok (use_ticket t.qr_hash_hex later db_now s).0)) [
        | inr h ↦ h
        | inl h ↦
            let (t', e', seen, _) = use_ticket-ok t.qr_hash_hex later db_now s h in
            let same : some t' ≡ some t = sym seen.scanned ∙ scanned in
            let same_event : some e' ≡ some e =
              sym seen.found
              ∙ ap
                  (λ o. elim o [
                    | none ↦ none
                    | some t ↦ first_where (event_is t.event_id) s.db.events
                  ])
                  same
              ∙ found in
            absurd (ground (arith, same_event, seen.not_over, active, shown))
      ]
