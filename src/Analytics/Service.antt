-- ===== src/Analytics/Service.antt =====
-- analytics/service/service.go: `EventStats`, over Redis, and analytics/handler/routes.go.
pub mod Privacy
use senior_project.Common.{
  ℕ, String, Bool, true, false, not, ◌==◌, ◌≡◌, ◌⊎◌, Option, none, some, List, [], ◌∷◌, trim_space,
  str_eq, if◌then◌else◌, ltb,
}
use senior_project.Errors.{Error, Result, ok, err, not_found, event_not_found}
use senior_project.Tables.{Role}
use senior_project.Sql.{Session, Action}
use senior_project.Auth.Roles.{has_role}
use senior_project.Http.Errors.{Failure, Driver, map_domain_error}
use senior_project.Http.Handlers.{
  Reply, sent, refused, Handler, bad_request, unauthorized, denied, broken,
}
use senior_project.Http.Guards.{Context, has_any_role}
use senior_project.Analytics.Stats.{EventStats, repository_stats}
use senior_project.Analytics.Keys.{cache_key}

-- The calls of the Redis client. `get` is `none` for a missing key and for an error. A service without a
-- client is one whose Redis keeps nothing.
pub record Redis : Type 1 where
  pub State : Type 0
  pub get : String → State → Option String × State
  pub set : String → String → State → State
  pub del : String → State → State

-- What Redis documents: a key has what was last set at it, or nothing, after an eviction, the end of
-- its 30 seconds, or an error.
pub record IsKeyValue (r : Redis) : Type 0 where
  pub contents : r.State → String → Option String
  pub get_reads :
      (k text : String) (c : r.State) → (r.get k c).0 ≡ some text → contents c k ≡ some text
  pub get_keeps :
      (k j text : String) (c : r.State)
      → contents (r.get k c).1 j ≡ some text
      → contents c j ≡ some text
  pub set_keeps :
      (k j v text : String) (c : r.State)
      → contents (r.set k v c) j ≡ some text
      → ((j ≡ k) × (text ≡ v)) ⊎ (contents c j ≡ some text)
  pub del_keeps :
      (k j text : String) (c : r.State)
      → contents (r.del k c) j ≡ some text
      → contents c j ≡ some text

-- `ErrNotFound` becomes `ErrEventNotFound`; `ErrForbidden` has the same text in both packages.
abbrev pub service_error : Error → Error
service_error not_found = event_not_found
service_error e = e

-- `encode` and `decode` are `json.Marshal` and `json.Unmarshal`.
module _ (r : Redis) (encode : EventStats → Option String) (decode : String → Option EventStats)
    (uuid_text : ℕ → String) (hour : ℕ) where
  abbrev pub Answer : Type 0
  Answer = Result EventStats × (Session × r.State)

  unfoldable pub remember : String → Option String → r.State → r.State
  remember key none c = c
  remember key (some text) c = r.set key text c

  -- What follows the call of the repository.
  unfoldable pub stored : String → Result EventStats × Session → r.State → Answer
  unfolding remember
  stored key (ok stats, s) c = (ok stats, (s, remember key (encode stats) c))
  stored key (err e, s) c = (err (service_error e), (s, c))

  unfoldable pub from_repository : ℕ → Bool → Option ℕ → ℕ → Session → r.State → Answer
  unfolding stored
  from_repository caller is_admin event now s c =
      stored (cache_key uuid_text caller is_admin event)
        (repository_stats hour uuid_text caller is_admin event now s) c

  -- The entry that was read: one that does not decode is deleted.
  unfoldable pub from_entry :
      ℕ → Bool → Option ℕ → ℕ → Session → Option EventStats → r.State → Answer
  unfolding from_repository
  from_entry caller is_admin event now s (some stats) c = (ok stats, (s, c))
  from_entry caller is_admin event now s none c =
      from_repository caller is_admin event now s
        (r.del (cache_key uuid_text caller is_admin event) c)

  unfoldable pub after_get : ℕ → Bool → Option ℕ → ℕ → Session → Option String × r.State → Answer
  unfolding from_entry from_repository
  after_get caller is_admin event now s (some text, c) =
      from_entry caller is_admin event now s (decode text) c
  after_get caller is_admin event now s (none, c) = from_repository caller is_admin event now s c

  unfoldable pub event_stats : ℕ → Bool → Option ℕ → ℕ → Session → r.State → Answer
  unfolding after_get
  event_stats caller is_admin event now s c =
      after_get caller is_admin event now s (r.get (cache_key uuid_text caller is_admin event) c)

  -- The answer to a failure: a clearer message for a caller who may not see the event, and one text for
  -- everything on the server's side.
  abbrev pub stats_failure : Failure → Failure
  stats_failure f =
      if ltb f.status 500
      then (if str_eq f.code "FORBIDDEN"
          then denied "not allowed to view stats for this event"
          else f)
      else broken "analytics failed"

  unfoldable pub stats_reply : Driver → Answer → Reply EventStats × (Session × r.State)
  stats_reply d (ok stats, after) = (sent stats, after)
  stats_reply d (err e, after) = (refused (stats_failure (map_domain_error d e)), after)

  -- The uuid of the query; a blank text asks for all events of the caller.
  abbrev pub asked_event : (String → Option ℕ) → String → Option (Option ℕ)
  asked_event parse_uuid text =
      if str_eq (trim_space text) ""
      then some none
      else elim (parse_uuid (trim_space text)) [ none ↦ none | some id ↦ some (some id) ]

  unfoldable pub stats_for :
      Driver
      → Context
      → Option ℕ
      → Option (Option ℕ)
      → ℕ
      → Session
      → r.State
      → Reply EventStats × (Session × r.State)
  unfolding stats_reply event_stats has_role
  stats_for d ctx none event now s c = (refused (unauthorized "missing user id"), (s, c))
  stats_for d ctx (some caller) none now s c =
      if not (has_any_role ctx.roles)
      then (refused (unauthorized "missing role"), (s, c))
      else (refused (bad_request "invalid event_id"), (s, c))
  stats_for d ctx (some caller) (some event) now s c =
      let answer =
        stats_reply d (event_stats caller (has_role ctx.roles Role.admin) event now s c) in
      if not (has_any_role ctx.roles)
      then (refused (unauthorized "missing role"), (s, c))
      else answer

  unfoldable pub handle_event_stats :
      Driver
      → (String → Option ℕ)
      → Context
      → String
      → ℕ
      → Session
      → r.State
      → Reply EventStats × (Session × r.State)
  unfolding stats_for trim_space
  handle_event_stats d parse_uuid ctx event_text now s c =
      stats_for d ctx ctx.user_id (asked_event parse_uuid event_text) now s c
