-- ===== src/Events/Patch.antt =====
-- events/repository/postgres.go: `Update` and its `EventPatch` (events/repository/interfaces.go).
use senior_project.Common.{
  ℕ, String, ◌-◌, Bool, true, false, ◌&&◌, Option, none, some, ◌==◌, if◌then◌else◌, first_where,
  update_where,
}
use senior_project.Errors.{not_found, violation}
use senior_project.Tables.{Event, EventStatus}
use senior_project.Sql.{Action, pure, reading, or_raise, ◌>>=◌, ◌>>◌, raise_if, writing, statement}
use senior_project.Ticketing.Statements.{event_is, occupied}
use senior_project.Events.Repository.{get_event}

-- A field that is `none` is left as it is.
pub record EventPatch : Type 0 where
  pub title : Option String
  pub description : Option String
  pub cover_image_url : Option String
  pub starts_at : Option ℕ
  pub location : Option String
  pub end_at : Option ℕ
  pub capacity_total : Option ℕ
  pub status : Option EventStatus

abbrev pub is_none : {A : Type 0} → Option A → Bool
is_none none = true
is_none (some _) = false

abbrev pub or_old : {A : Type 0} → Option A → A → A
or_old none old = old
or_old (some new) old = new

-- `len(set) == 0`.
unfoldable pub is_empty_patch : EventPatch → Bool
is_empty_patch p =
    is_none p.title
    && (is_none p.description
        && (is_none p.cover_image_url
            && (is_none p.starts_at
                && (is_none p.location
                    && (is_none p.end_at && (is_none p.capacity_total && is_none p.status))))))

-- The pair `capacity_total = $n, capacity_available = GREATEST(0, $n - (SELECT COUNT(*) …))`.
abbrev pub patched_available : Option ℕ → ℕ → ℕ → ℕ
patched_available none taken old = old
patched_available (some total) taken old = total - taken

-- The SET list, over the old row.
abbrev pub patched : EventPatch → ℕ → ℕ → Event → Event
patched p taken db_now e = record e {
  title = or_old p.title e.title;
  description = or_old p.description e.description;
  cover_image_url = or_old p.cover_image_url e.cover_image_url;
  starts_at = or_old p.starts_at e.starts_at;
  location = elim p.location [ none ↦ e.location | some l ↦ some l ];
  end_at = elim p.end_at [ none ↦ e.end_at | some t ↦ some t ];
  capacity_total = or_old p.capacity_total e.capacity_total;
  capacity_available = patched_available p.capacity_total taken e.capacity_available;
  status = or_old p.status e.status;
  updated_at = db_now;
}

-- The CHECK `capacity_total >= 1`.
abbrev pub breaks_check : Option ℕ → Bool
breaks_check none = false
breaks_check (some total) = total == 0

-- The UPDATE with RETURNING; the CHECK is made on a row that the UPDATE reaches.
unfoldable pub send_patch : ℕ → EventPatch → ℕ → Action Event
send_patch id patch db_now = do
  statement
  row ← reading (λ db. first_where (event_is id) db.events)
  e ← or_raise row not_found
  raise_if (breaks_check patch.capacity_total) (violation "23514")
  taken ← reading (λ db. occupied id db.tickets)
  writing (λ db. record db {
    events = update_where (event_is id) (patched patch taken db_now) db.events;
  })
  pure (patched patch taken db_now e)

unfoldable pub update_event : ℕ → EventPatch → ℕ → Action Event
update_event id patch db_now =
    if is_empty_patch patch then get_event id else send_patch id patch db_now
