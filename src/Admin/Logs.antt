-- ===== src/Admin/Logs.antt =====
-- admin/repository/postgres.go. A new uuid and the clock are arguments.
use senior_project.Common.{
  ⊤, ℕ, String, Bool, false, ltb, ◌==◌, ◌&&◌, if◌then◌else◌, Option, none, some, List, ◌∷◌, ℤ,
  is_empty_text, trim_space, count_where, select_where, sort_desc, page,
}
use senior_project.Errors.{driver, violation}
use senior_project.Tables.{ModerationLog}
use senior_project.Sql.{Action, pure, reading, or_raise, ◌>>=◌, ◌>>◌, raise_if, writing, statement}
use senior_project.Ticketing.Statements.{event_is, is_user}
use senior_project.Events.Listing.{effective_limit, effective_offset, if_given, owned_by}

abbrev pub log_is : ℕ → ModerationLog → Bool
log_is k l = l.id == k

-- A text argument that is blank is NULL.
abbrev pub null_if_blank : String → Option String
null_if_blank text = if is_empty_text (trim_space text) then none else some (trim_space text)

-- The uuid of a text that is not blank. The library's text, which the error wraps, is left out.
unfoldable pub log_event : (String → Option ℕ) → String → Action (Option ℕ)
unfolding trim_space
log_event parse_uuid text = if is_empty_text (trim_space text) then pure none else (do
  id ← or_raise (parse_uuid (trim_space text)) (driver "invalid event id: ")
  pure (some id))

-- No row has the key that a foreign key names; NULL names none.
abbrev pub names_nothing : Option ℕ → (ℕ → ℕ) → Bool
names_nothing none rows = false
names_nothing (some id) rows = rows id == 0

unfoldable pub insert_moderation_log :
    (String → Option ℕ) → ℕ → ℕ → String → String → String → ℕ → Action ⊤
unfolding log_event trim_space
insert_moderation_log parse_uuid id admin event_text action reason db_now = do
  event ← log_event parse_uuid event_text
  statement
  same ← reading (λ db. count_where (log_is id) db.moderation_logs)
  raise_if (ltb 0 same) (violation "23505")
  admins ← reading (λ db. count_where (is_user admin) db.users)
  raise_if (admins == 0) (violation "23503")
  no_event ← reading (λ db. names_nothing event (λ k. count_where (event_is k) db.events))
  raise_if no_event (violation "23503")
  writing (λ db. record db {
    moderation_logs =
        record {
          id = id;
          admin_user_id = admin;
          event_id = event;
          action = trim_space action;
          reason = null_if_blank reason;
          created_at = db_now;
        }
        ∷ db.moderation_logs;
  })

pub record ModerationLogFilter : Type 0 where
  pub event_id : Option ℕ
  pub admin_id : Option ℕ
  pub limit : ℤ
  pub offset : ℤ

-- The WHERE list. The event of a log may be NULL, which is equal to nothing.
unfoldable pub log_matches : ModerationLogFilter → ModerationLog → Bool
log_matches f l =
    if_given f.event_id (λ k. owned_by k l.event_id)
    && if_given f.admin_id (λ k. l.admin_user_id == k)

unfoldable pub list_moderation_logs : ModerationLogFilter → Action (List ModerationLog)
unfolding log_matches effective_limit effective_offset
list_moderation_logs f = do
  statement
  reading (λ db.
      page (effective_limit f.limit) (effective_offset f.offset)
        (sort_desc (λ l. l.created_at) (select_where (log_matches f) db.moderation_logs)))
