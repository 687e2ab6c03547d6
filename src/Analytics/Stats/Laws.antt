-- ===== src/Analytics/Stats/Laws.antt =====
-- What the statistics of an event are.
use senior_project.Common.{
  row_count-select_where, ◌<◌, ltb, ◌⊎◌, Bool-cases, ℕ, ◌+◌, ◌-◌, String, Bool, true, false, ◌≡◌,
  sym, ◌∙◌, some, arith, Option-cases, inl, inr, first_where, select_where,
}
use mathlib.Core.Path.{subst}
use senior_project.Errors.{ok}
use senior_project.Tables.{Database, Event}
use senior_project.Sql.{Session, statement}
use senior_project.Sql.Laws.{statement-db, with_tx_rule}
use senior_project.Ticketing.Statements.{event_is, seat_at, occupied}
use senior_project.Seats.Invariant.{IsConsistent}
use senior_project.Events.Listing.{owned_by}
use senior_project.Analytics.Stats.{
  grouped, recent, EventStats, registrations, registration_timeline, event_body,
  event_stats_for_event, remaining_capacity_derived,
}

-- What an answer for one event says: the event is there, it is the caller's unless the caller is an
-- admin, and the counts are the tables'.
pub record IsStatsOf (hour now : ℕ) (db : Database) (id caller : ℕ) (is_admin : Bool)
    (stats : EventStats) : Type 0 where
  pub event : Event
  pub found : first_where (event_is id) db.events ≡ some event
  pub owned : is_admin ≡ false → owned_by caller event.organizer_id ≡ true
  pub total : stats.total_capacity ≡ event.capacity_total
  pub registered : stats.registered_count ≡ occupied id db.tickets
  pub timeline :
      stats.registration_timeline
      ≡ grouped hour (select_where (recent hour now) (select_where (seat_at id) db.tickets))
  pub remaining : stats.remaining_capacity ≡ event.capacity_total - occupied id db.tickets

module _ (hour : ℕ) (uuid_text : ℕ → String) (id caller : ℕ) (is_admin : Bool) (now : ℕ) where
  event_body-db : (s : Session) → (event_body hour uuid_text id caller is_admin now s).1.db ≡ s.db
  unfolding event_body registration_timeline
  event_body-db s =
      let s1 = (statement s).1 in
      let s2 = (statement s1).1 in
      elim (Option-cases (first_where (event_is id) s.db.events)) [
        | inl a ↦ ground (arith, a, statement-db s)
        | inr (e, a) ↦ ground (arith, a, statement-db s, statement-db s1, statement-db s2)
      ]

  event_body-IsStatsOf :
      (s : Session) (stats : EventStats)
      → (event_body hour uuid_text id caller is_admin now s).0 ≡ ok stats
      → IsStatsOf hour now s.db id caller is_admin stats
  unfolding event_body registration_timeline registrations remaining_capacity_derived
  event_body-IsStatsOf s stats h = elim (Option-cases (first_where (event_is id) s.db.events)) [
    | inl a ↦ absurd (ground (arith, h, a, statement-db s))
    | inr (e, a) ↦
        let s1 = (statement s).1 in
        let s2 = (statement s1).1 in
        let counted = row_count-select_where (seat_at id) s.db.tickets in
        record {
          event = e;
          found = a;
          owned = λ organizer. ground (arith, h, a, organizer, statement-db s);
          total = ground (arith, h, a, statement-db s);
          registered = ground (arith, h, a, counted, statement-db s, statement-db s1);
          timeline = ground (arith, h, a, statement-db s, statement-db s1, statement-db s2);
          remaining = ground (arith, h, a, counted, statement-db s, statement-db s1);
        }
  ]

  pub event_stats_for_event-IsStatsOf :
      (s : Session) (stats : EventStats)
      → (event_stats_for_event hour uuid_text id caller is_admin now s).0 ≡ ok stats
      → IsStatsOf hour now s.db id caller is_admin stats
        × ((event_stats_for_event hour uuid_text id caller is_admin now s).1.db ≡ s.db)
  unfolding event_stats_for_event
  event_stats_for_event-IsStatsOf s stats =
      with_tx_rule
        (λ r db. r ≡ ok stats → IsStatsOf hour now s.db id caller is_admin stats × (db ≡ s.db))
        (event_body hour uuid_text id caller is_admin now) s (λ e h. cc)
        (λ begun same h is. (
          subst (λ db. IsStatsOf hour now db id caller is_admin stats) same
              (event_body-IsStatsOf begun stats is),
          event_body-db begun ∙ same,
        ))

  -- Statistics of one event that are answered, whatever fails around them: the event is there and, for
  -- a caller who is no admin, it is the caller's. The total is the event's, the registrations are its
  -- active and used tickets; over consistent tables the remaining seats are those that the event itself
  -- has as available. Registrations and remaining seats add up to the total, or the event has more
  -- registrations than its total and no seat remains. Nothing is written.
  pub event_stats_for_event-balance :
      (s : Session) (stats : EventStats)
      → IsConsistent s.db
      → (event_stats_for_event hour uuid_text id caller is_admin now s).0 ≡ ok stats
      → (e : Event) × (first_where (event_is id) s.db.events ≡ some e)
        × (is_admin ≡ false → owned_by caller e.organizer_id ≡ true)
        × (stats.total_capacity ≡ e.capacity_total)
        × (stats.registered_count ≡ occupied id s.db.tickets)
        × (stats.remaining_capacity ≡ e.capacity_available)
        × ((stats.total_capacity ≡ stats.registered_count + stats.remaining_capacity)
            ⊎ ((stats.total_capacity < stats.registered_count) × (stats.remaining_capacity ≡ 0)))
        × ((event_stats_for_event hour uuid_text id caller is_admin now s).1.db ≡ s.db)
  event_stats_for_event-balance s stats v h =
      let (is, kept) = event_stats_for_event-IsStatsOf s stats h in
      (
        is.event,
        is.found,
        is.owned,
        is.total,
        is.registered,
        is.remaining ∙ sym (v.seats_add_up id is.event is.found),
        elim (Bool-cases (ltb stats.total_capacity stats.registered_count)) [
          | inl over ↦
              inr
                (ground (arith, over), ground (arith, over, is.total, is.registered, is.remaining))
          | inr fits ↦ inl (ground (arith, fits, is.total, is.registered, is.remaining))
        ],
        kept,
      )
