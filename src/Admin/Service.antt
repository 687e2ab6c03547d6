-- ===== src/Admin/Service.antt =====
-- admin/service/service.go: `ModerateEvent` and `SetUserRole`. The lists are the repositories'.
use Prim.Native.String.{◌++◌ as join}
use senior_project.Common.{
  ⊤, ℕ, String, if◌then◌else◌, Option, none, some, is_empty_text, trim_space, lower_is,
}
use senior_project.Errors.{
  Result, ok, err, not_found, event_not_found, invalid_event_id, invalid_action, invalid_role,
}
use senior_project.Tables.{ModerationStatus, Role}
use senior_project.Sql.{Session, Action, pure, or_raise, ◌>>=◌, ◌>>◌}
use senior_project.Events.Repository.{get_event, update_moderation}
use senior_project.Auth.Users.{User, get_user_by_id, update_user_role}
use senior_project.Auth.Roles.{role_text}
use senior_project.Notifications.Queue.{NewNotification, enqueue}
use senior_project.Admin.Logs.{insert_moderation_log}

-- An error that is only logged. What the call wrote before it stays.
unfoldable pub ignoring : {A : Type 0} → Action A → Action ⊤
ignoring m s = (ok tt, (m s).1)

-- A step that is taken where a call has a value, and left out where it has an error.
unfoldable pub if_ok : {A : Type 0} → (A → Action ⊤) → Result A × Session → Result ⊤ × Session
if_ok f (ok a, s) = f a s
if_ok f (err e, s) = (ok tt, s)

-- `ErrNotFound` of the event repository becomes `ErrEventNotFound`.
unfoldable pub missing_event : {A : Type 0} → Result A × Session → Result A × Session
missing_event (err not_found, s) = (err event_not_found, s)
missing_event (err e, s) = (err e, s)
missing_event (ok a, s) = (ok a, s)

-- The switch over the action, in lower case and without the white space around it.
unfoldable pub moderation_of : String → Option ModerationStatus
unfolding trim_space
moderation_of action =
    if lower_is (trim_space action) "approve"
    then some ModerationStatus.approved
    else if lower_is (trim_space action) "reject"
    then some ModerationStatus.rejected
    else none

-- The text of the action as the switch saw it.
abbrev pub action_text : ModerationStatus → String
action_text ModerationStatus.approved = "approve"
action_text ModerationStatus.rejected = "reject"
action_text ModerationStatus.pending = ""

unfoldable pub normalize_role : String → Option Role
unfolding trim_space
normalize_role text =
    if lower_is (trim_space text) "student"
    then some Role.student
    else if lower_is (trim_space text) "organizer"
    then some Role.organizer
    else if lower_is (trim_space text) "admin"
    then some Role.admin
    else none

-- `uuid_text` and `parse_uuid` are the uuid library's; `quote` is the verb %q.
module _ (uuid_text : ℕ → String) (parse_uuid : String → Option ℕ) (quote : String → String) where
  abbrev pub rejection_text : String → String → String
  rejection_text title reason =
      let text = join "Your event " (join (quote title) " was rejected.") in
      if is_empty_text (trim_space reason)
      then text
      else join text (join " Reason: " (trim_space reason))

  abbrev pub rejection : User → String → String → NewNotification
  rejection u title reason = record {
    id = none;
    kind = "email";
    to = u.row.email;
    title = "Event rejected";
    body = rejection_text title reason;
    created_at = none;
  }

  -- The email to the organizer, where the event is rejected and has one.
  unfoldable pub tell_organizer : ModerationStatus → Option ℕ → String → String → ℕ → ℕ → Action ⊤
  unfolding if_ok ignoring
  tell_organizer ModerationStatus.rejected (some organizer) title reason note now = λ s.
      if_ok (λ u. ignoring (enqueue (rejection u title reason) note now))
        (get_user_by_id organizer s)
  tell_organizer _ _ title reason note now = pure tt

  -- `log` and `note` are the new uuids, `now` the clock and `db_now` is NOW().
  unfoldable pub moderate_event :
      ℕ → String → String → String → ℕ → ℕ → ℕ → ℕ → Action ModerationStatus
  unfolding missing_event ignoring
  moderate_event admin event_text action reason log note now db_now = do
    id ← or_raise (parse_uuid (trim_space event_text)) invalid_event_id
    st ← or_raise (moderation_of action) invalid_action
    before ← (λ s. missing_event (get_event id s))
    updated ← (λ s. missing_event (update_moderation id st admin db_now s))
    ignoring (
        insert_moderation_log parse_uuid log admin (uuid_text id) (action_text st)
          (trim_space reason) db_now)
    tell_organizer st before.organizer_id before.title reason note now
    pure updated.moderation_status

  abbrev pub role_reason : ℕ → Role → String
  role_reason user role =
      join "target_user_id=" (join (uuid_text user) (join ";new_role=" (role_text role)))

  unfoldable pub set_user_role : ℕ → ℕ → String → ℕ → ℕ → Action User
  unfolding normalize_role update_user_role ignoring insert_moderation_log
  set_user_role admin user text log db_now = do
    role ← or_raise (normalize_role text) invalid_role
    u ← update_user_role user role db_now
    ignoring (
        insert_moderation_log parse_uuid log admin "" "patch_user_role" (role_reason user role)
          db_now)
    pure u
