-- ===== src/Admin/Moderation.antt =====
-- What `ModerateEvent` does to the tables.
use senior_project.Common.{
  ℕ, String, ◌≡◌, refl, ap, ◌∙◌, inl, inr, Option, none, some, arith, Option-cases, first_where,
  update_where, trim_space,
}
use senior_project.Errors.{Result, ok, err, Result-cases}
use senior_project.Tables.{Event, ModerationStatus}
use senior_project.Sql.{Session, statement}
use senior_project.Sql.Laws.{statement-db}
use senior_project.Ticketing.Statements.{event_is}
use senior_project.Events.Repository.{get_event, update_moderation, moderated}
use senior_project.Auth.Users.{User, get_user_by_id, merge_role_rows}
use senior_project.Notifications.Queue.{NewNotification, enqueue}
use senior_project.Admin.Logs.{insert_moderation_log, log_event}
use senior_project.Admin.Service.{
  ignoring, if_ok, missing_event, moderation_of, action_text, tell_organizer, moderate_event,
  rejection,
}

module _ (uuid_text : ℕ → String) (parse_uuid : String → Option ℕ) (quote : String → String) where
  log-events :
      (log admin : ℕ) (event_text action reason : String) (db_now : ℕ) (s : Session)
      → (ignoring
          (insert_moderation_log parse_uuid log admin event_text action reason db_now)
          s).1.db.events
        ≡ s.db.events
  unfolding ignoring insert_moderation_log log_event
  log-events log admin event_text action reason db_now s = ground (arith, statement-db s)

  user-db : (user : ℕ) (s : Session) → (get_user_by_id user s).1.db ≡ s.db
  unfolding get_user_by_id merge_role_rows
  user-db user s = let s1 = (statement s).1 in ground (arith, statement-db s, statement-db s1)

  sent-events :
      (n : NewNotification) (note now : ℕ) (s : Session)
      → (enqueue n note now s).1.db.events ≡ s.db.events
  unfolding enqueue
  sent-events n note now s = ground (arith, statement-db s)

  told-events :
      (n : User → NewNotification) (note now : ℕ) (x : Result User × Session)
      → (if_ok (λ u. ignoring (enqueue (n u) note now)) x).1.db.events ≡ x.1.db.events
  unfolding if_ok ignoring
  told-events n note now (ok u, s) = sent-events (n u) note now s
  told-events n note now (err e, s) = refl

  tell-events :
      (st : ModerationStatus) (organizer : Option ℕ) (title reason : String) (note now : ℕ)
      (s : Session)
      → (tell_organizer uuid_text parse_uuid quote st organizer title reason note now s).1.db.events
        ≡ s.db.events
  unfolding tell_organizer
  tell-events ModerationStatus.rejected (some k) title reason note now s =
      told-events (λ u. rejection uuid_text parse_uuid quote u title reason) note now
        (get_user_by_id k s)
      ∙ ap (λ db. db.events) (user-db k s)
  tell-events ModerationStatus.rejected none title reason note now s = refl
  tell-events ModerationStatus.approved organizer title reason note now s = refl
  tell-events ModerationStatus.pending organizer title reason note now s = refl

  found-ok :
      (id : ℕ) (s : Session) (e : Event)
      → (missing_event (get_event id s)).0 ≡ ok e
      → (first_where (event_is id) s.db.events ≡ some e)
        × ((missing_event (get_event id s)).1.db ≡ s.db)
  unfolding get_event missing_event
  found-ok id s e h = ground (arith, statement-db s, h)

  updated-ok :
      (id : ℕ) (st : ModerationStatus) (admin db_now : ℕ) (s : Session) (e : Event)
      → (missing_event (update_moderation id st admin db_now s)).0 ≡ ok e
      → (e.moderation_status ≡ st)
        × ((missing_event (update_moderation id st admin db_now s)).1.db.events
            ≡ update_where (event_is id) (moderated st admin db_now) s.db.events)
  unfolding update_moderation missing_event
  updated-ok id st admin db_now s e h = ground (arith, statement-db s, h)

  -- The events after a moderation that is answered, whatever fails around it.
  pub moderate_event-ok :
      (admin : ℕ) (event_text action reason : String) (log note now db_now : ℕ) (s : Session)
      (st : ModerationStatus)
      → (moderate_event uuid_text parse_uuid quote admin event_text action reason log note now
          db_now s).0
        ≡ ok st
      → (id : ℕ) × (e : Event) × (parse_uuid (trim_space event_text) ≡ some id)
        × (moderation_of action ≡ some st)
        × (first_where (event_is id) s.db.events ≡ some e)
        × ((moderate_event uuid_text parse_uuid quote admin event_text action reason log note now
              db_now s).1.db.events
            ≡ update_where (event_is id) (moderated st admin db_now) s.db.events)
  unfolding moderate_event
  moderate_event-ok admin event_text action reason log note now db_now s st h =
      elim (Option-cases (parse_uuid (trim_space event_text))) [
        | inl a ↦ absurd (ground (arith, a, h))
        | inr (id, a) ↦ elim (Option-cases (moderation_of action)) [
          | inl b ↦ absurd (ground (arith, a, b, h))
          | inr (wanted, b) ↦ elim (Result-cases (missing_event (get_event id s)).0) [
            | inl c ↦ absurd (ground (arith, a, b, c, h))
            | inr (before, c) ↦
                let s1 = (missing_event (get_event id s)).1 in
                elim (Result-cases
                  (missing_event (update_moderation id wanted admin db_now s1)).0) [
                    | inl e ↦ absurd (ground (arith, a, b, c, e, h))
                    | inr (updated, e) ↦
                        let s2 = (missing_event (update_moderation id wanted admin db_now s1)).1 in
                        let s3 =
                          (ignoring
                            (insert_moderation_log parse_uuid log admin (uuid_text id)
                              (action_text wanted) (trim_space reason) db_now)
                            s2).1 in
                        let got = found-ok id s before c in
                        let put = updated-ok id wanted admin db_now s1 updated e in
                        let told =
                          tell-events wanted before.organizer_id before.title reason note now s3 in
                        let logged =
                          log-events log admin (uuid_text id) (action_text wanted)
                            (trim_space reason) db_now s2 in
                        let same : wanted ≡ st = ground (arith, a, b, c, e, h, put) in
                        (
                          id,
                          before,
                          a,
                          ground (arith, b, same),
                          got.0,
                          ground (arith, a, b, c, e, h, put, same, got, told, logged),
                        )
                  ]
          ]
        ]
      ]
