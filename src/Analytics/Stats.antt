-- ===== src/Analytics/Stats.antt =====
-- analytics/repository/postgres.go.
pub mod Laws
use Prim.Native.Nat.{◌%◌}
use senior_project.Common.{
  ⊤, ℕ, ◌+◌, ◌-◌, ◌*◌, String, Bool, true, false, not, ◌&&◌, leb, ltb, ◌==◌, if◌then◌else◌, Option,
  none, some, List, [], ◌∷◌, ◌++◌, map, select_where, first_where, count_where, row_count,
}
use senior_project.Errors.{not_found, forbidden}
use senior_project.Tables.{Database, Event, Ticket}
use senior_project.Sql.{Action, pure, reading, or_raise, ◌>>=◌, ◌>>◌, raise_if, statement, with_tx}
use senior_project.Ticketing.Statements.{event_is, seat_at, holds_seat, occupied}
use senior_project.Events.Listing.{owned_by}

unfoldable pub remaining_capacity_derived : ℕ → ℕ → ℕ
remaining_capacity_derived total registered = if leb total registered then 0 else total - registered

pub record RegistrationHour : Type 0 where
  pub hour : ℕ
  pub count : ℕ

pub record EventStats : Type 0 where
  pub event_id : Option String
  pub total_capacity : ℕ
  pub registered_count : ℕ
  pub remaining_capacity : ℕ
  pub registration_timeline : List RegistrationHour
  pub as_of : ℕ

-- The rows that the counts and the timeline are over.
pub data Scope : Type 0 where
  one_event : ℕ → Scope
  all_events : Scope
  events_of : ℕ → Scope

abbrev pub seat_held : Ticket → Bool
seat_held t = holds_seat t.status

-- `INNER JOIN events e ON e.id = t.event_id WHERE e.organizer_id = $1`: a row of the join for each event
-- that a ticket meets.
abbrev pub events_met : ℕ → Ticket → Event → Bool
events_met caller t e = event_is t.event_id e && owned_by caller e.organizer_id

unfoldable pub joined_to_own : ℕ → List Event → List Ticket → List Ticket
joined_to_own caller events [] = []
joined_to_own caller events (t ∷ ts) =
    map (λ e. t) (select_where (events_met caller t) events) ++ joined_to_own caller events ts

unfoldable pub registrations : Scope → Database → List Ticket
unfolding joined_to_own
registrations (Scope.one_event id) db = select_where (seat_at id) db.tickets
registrations Scope.all_events db = select_where seat_held db.tickets
registrations (Scope.events_of caller) db =
    select_where seat_held (joined_to_own caller db.events db.tickets)

-- A bucket of GROUP BY in the order of its hour.
unfoldable pub count_hour : ℕ → List RegistrationHour → List RegistrationHour
count_hour h [] = record { hour = h; count = 1 } ∷ []
count_hour h (b ∷ bs) =
    let rest = count_hour h bs in
    if h == b.hour
    then record b { count = b.count + 1 } ∷ bs
    else if ltb h b.hour
    then record { hour = h; count = 1 } ∷ b ∷ bs
    else b ∷ rest

abbrev pub capacity_sum : List Event → ℕ
capacity_sum [] = 0
capacity_sum (e ∷ es) = e.capacity_total + capacity_sum es

abbrev pub in_scope : Scope → Event → Bool
in_scope (Scope.one_event id) e = event_is id e
in_scope Scope.all_events e = true
in_scope (Scope.events_of caller) e = owned_by caller e.organizer_id

-- `hour` is the number of the clock's units in an hour; the clock begins at a full hour.
module _ (hour : ℕ) where
  -- `date_trunc('hour', …, 'UTC')`
  abbrev pub hour_of : Ticket → ℕ
  hour_of t = t.created_at - t.created_at % hour

  unfoldable pub grouped : List Ticket → List RegistrationHour
  unfolding count_hour
  grouped [] = []
  grouped (t ∷ ts) = count_hour (hour_of t) (grouped ts)

  -- `created_at >= now - 7 * 24 hours`
  abbrev pub recent : ℕ → Ticket → Bool
  recent now t = leb (now - 168 * hour) t.created_at

  unfoldable pub registration_timeline : Scope → ℕ → Action (List RegistrationHour)
  unfolding grouped registrations
  registration_timeline scope now = do
    statement
    reading (λ db. grouped (select_where (recent now) (registrations scope db)))

  abbrev pub stats_of : Option String → ℕ → ℕ → List RegistrationHour → ℕ → EventStats
  stats_of event total registered timeline now = record {
    event_id = event;
    total_capacity = total;
    registered_count = registered;
    remaining_capacity = remaining_capacity_derived total registered;
    registration_timeline = timeline;
    as_of = now;
  }

  -- The body of the transaction of `eventStatsForEvent`.
  unfoldable pub event_body : (ℕ → String) → ℕ → ℕ → Bool → ℕ → Action EventStats
  unfolding registrations registration_timeline remaining_capacity_derived
  event_body uuid_text id caller is_admin now = do
    statement
    row ← reading (λ db. first_where (event_is id) db.events)
    e ← or_raise row not_found
    raise_if (not is_admin && not (owned_by caller e.organizer_id)) forbidden
    statement
    registered ← reading (λ db. row_count (registrations (Scope.one_event id) db))
    timeline ← registration_timeline (Scope.one_event id) now
    pure (stats_of (some (uuid_text id)) e.capacity_total registered timeline now)

  unfoldable pub event_stats_for_event : (ℕ → String) → ℕ → ℕ → Bool → ℕ → Action EventStats
  unfolding with_tx event_body
  event_stats_for_event uuid_text id caller is_admin now =
      with_tx (event_body uuid_text id caller is_admin now)

  abbrev pub scope_of : ℕ → Bool → Scope
  scope_of caller is_admin = if is_admin then Scope.all_events else Scope.events_of caller

  -- The body of the transaction of `eventStatsAggregate`.
  unfoldable pub aggregate_body : ℕ → Bool → ℕ → Action EventStats
  unfolding registrations registration_timeline remaining_capacity_derived
  aggregate_body caller is_admin now = do
    statement
    total ←
        reading (λ db. capacity_sum (select_where (in_scope (scope_of caller is_admin)) db.events))
    statement
    registered ← reading (λ db. row_count (registrations (scope_of caller is_admin) db))
    timeline ← registration_timeline (scope_of caller is_admin) now
    pure (stats_of none total registered timeline now)

  unfoldable pub event_stats_aggregate : ℕ → Bool → ℕ → Action EventStats
  unfolding with_tx aggregate_body
  event_stats_aggregate caller is_admin now = with_tx (aggregate_body caller is_admin now)

  -- `EventStats`
  unfoldable pub repository_stats : (ℕ → String) → ℕ → Bool → Option ℕ → ℕ → Action EventStats
  unfolding event_stats_for_event event_stats_aggregate
  repository_stats uuid_text caller is_admin (some id) now =
      event_stats_for_event uuid_text id caller is_admin now
  repository_stats uuid_text caller is_admin none now = event_stats_aggregate caller is_admin now
