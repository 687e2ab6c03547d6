-- ===== src/Ticketing/Handlers/Laws.antt =====
-- What a request for a ticket has done when it is answered.
use senior_project.Common.{
  ℕ, String, true, ◌≡◌, ap, sym, ◌∙◌, inl, inr, Option-cases, Option, some, [], ◌∷◌, arith,
  first_where, trim_space,
}
use mathlib.Core.Path.{subst}
use senior_project.Errors.{ok_injective, Result, ok, is_ok, Result-cases}
use senior_project.Tables.{Database, Event, Role}
use senior_project.Sql.{Session, statement}
use senior_project.Sql.Laws.{statement-db}
use senior_project.Auth.Roles.{has_role}
use senior_project.Auth.Jwt.{Claims, Jwt}
use senior_project.Http.Errors.{Driver}
use senior_project.Http.Handlers.{
  decoded, invalid, Handler, sent, Reply-cases, Body, call, best_effort, need_body,
}
use senior_project.Http.Handlers.Laws.{call-sent, call-session}
use senior_project.Http.Guards.{Context}
use senior_project.Http.Guards.Laws.{granted_has, IsAuthenticated, entry, turned_away, let_in}
use senior_project.Ticketing.Statements.{event_is, is_user}
use senior_project.Ticketing.Registration.{register_ticket}
use senior_project.Ticketing.Effects.{new_ticket, IsAdmitted, registered}
use senior_project.Ticketing.Issue.{Issued, issue_ticket, confirm, confirmation, lifted_result}
use senior_project.Notifications.Queue.{NewNotification, enqueue}
use senior_project.Ticketing.Handlers.{RegisterResponse, ticket_dto, handle_register, post_register}
use senior_project.Seats.Admission.{register_ticket-ok}

enqueue-tables :
    (n : NewNotification) (note now : ℕ) (s : Session)
    → ((enqueue n note now s).1.db.tickets ≡ s.db.tickets)
      × ((enqueue n note now s).1.db.events ≡ s.db.events)
unfolding enqueue
enqueue-tables n note now s = (ground (arith, statement-db s), ground (arith, statement-db s))

-- The confirmation, however far it comes, touches neither the tickets nor the events.
confirm-tables :
    (uuid_text print_time : ℕ → String) (user event : ℕ) (issued : Issued) (note now : ℕ)
    (s : Session)
    → ((confirm uuid_text print_time user event issued note now s).1.db.tickets ≡ s.db.tickets)
      × ((confirm uuid_text print_time user event issued note now s).1.db.events ≡ s.db.events)
unfolding confirm
confirm-tables uuid_text print_time user event issued note now s =
    let s1 = (statement s).1 in
    let s2 = (statement s1).1 in
    elim (Option-cases (first_where (is_user user) s.db.users)) [
      | inl a ↦ (ground (arith, a, statement-db s), ground (arith, a, statement-db s))
      | inr (u, a) ↦ elim (Option-cases (first_where (event_is event) s.db.events)) [
        | inl b ↦ (
          ground (arith, a, b, statement-db s, statement-db s1),
          ground (arith, a, b, statement-db s, statement-db s1),
        )
        | inr (e, b) ↦
            let told =
              enqueue-tables (confirmation uuid_text print_time u.email e issued) note now s2 in
            (
              ground (arith, a, b, statement-db s, statement-db s1, told),
              ground (arith, a, b, statement-db s, statement-db s1, told),
            )
      ]
    ]

need_body-sent :
    {A : Type 0} (b : Body A) (s : Session) (a : A) → (need_body b s).0 ≡ sent a → b ≡ decoded a
need_body-sent (decoded x) s a h = ground (arith, h)
need_body-sent (invalid text) s a h = cc

module _ (payload : Result String) (hash : String → String) (render : String → Result String) where
  issue_ticket-ok :
      (user event ticket now db_now : ℕ) (s : Session) (issued : Issued)
      → (issue_ticket payload hash render user event ticket now db_now s).0 ≡ ok issued
      → (text : String) × (payload ≡ ok text)
        × ((register_ticket user event ticket (hash text) now db_now s).0 ≡ ok issued.ticket)
        × ((issue_ticket payload hash render user event ticket now db_now s).1
            ≡ (register_ticket user event ticket (hash text) now db_now s).1)
  unfolding issue_ticket lifted_result
  issue_ticket-ok user event ticket now db_now s issued h = elim (Result-cases payload) [
    | inl a ↦ absurd (ground (arith, a, h))
    | inr (text, a) ↦
        elim (Result-cases (register_ticket user event ticket (hash text) now db_now s).0) [
          | inl b ↦ absurd (ground (arith, a, b, h))
          | inr (t, b) ↦ elim (Result-cases (render text)) [
            | inl c ↦ absurd (ground (arith, a, b, c, h))
            | inr (png, c) ↦ (text, a, ground (arith, a, b, c, h), ground (arith, a, b, c, h))
          ]
        ]
  ]

  module _ (d : Driver) (uuid_text print_time : ℕ → String) (parse_uuid : String → Option ℕ)
      (body : Body String) (ticket note now db_now : ℕ) where
    -- What an answer to a request for a ticket tells: the caller is the ticket's user, the body has the
    -- id of the ticket's event, that event admitted them, and the tickets and the events are those of
    -- that registration.
    pub record IsIssued (ctx : Context) (before : Database) (answer : RegisterResponse)
        (after : Database) : Type 0 where
      pub user : ℕ
      pub event : ℕ
      pub text : String
      pub event_row : Event
      pub known : ctx.user_id ≡ some user
      pub id_text : String
      pub asked : (body ≡ decoded id_text) × (parse_uuid (trim_space id_text) ≡ some event)
      pub drawn : payload ≡ ok text
      pub admitted : IsAdmitted before (new_ticket user event ticket (hash text) now) event_row
      pub told : answer.ticket ≡ ticket_dto uuid_text (new_ticket user event ticket (hash text) now)
      pub tickets : after.tickets ≡ new_ticket user event ticket (hash text) now ∷ before.tickets
      pub events :
          after.events
          ≡ (registered (new_ticket user event ticket (hash text) now) db_now before).events

    issued-IsIssued :
        (ctx : Context) (s : Session) (user event : ℕ) (id_text : String) (issued : Issued)
        (answer : RegisterResponse) (after : Database)
        → ctx.user_id ≡ some user
        → (body ≡ decoded id_text) × (parse_uuid (trim_space id_text) ≡ some event)
        → (call d (issue_ticket payload hash render user event ticket now db_now) s).0 ≡ sent issued
        → answer.ticket ≡ ticket_dto uuid_text issued.ticket
        → after.tickets
          ≡ (issue_ticket payload hash render user event ticket now db_now s).1.db.tickets
        → after.events
          ≡ (issue_ticket payload hash render user event ticket now db_now s).1.db.events
        → IsIssued ctx s.db answer after
    issued-IsIssued ctx s user event id_text issued answer after known asked got told tickets
          events =
        let issue = issue_ticket payload hash render user event ticket now db_now in
        let (text, drawn, row, same) =
          issue_ticket-ok user event ticket now db_now s issued (call-sent d issue s issued got) in
        let (e, admitted, is, wrote) =
          register_ticket-ok user event ticket (hash text) now db_now s (ap is_ok row) in
        record {
          user = user;
          event = event;
          text = text;
          event_row = e;
          known = known;
          id_text = id_text;
          asked = asked;
          drawn = drawn;
          admitted = admitted;
          told = told ∙ ap (ticket_dto uuid_text) (ok_injective (sym row ∙ is));
          tickets = tickets ∙ (ap (λ x. x.db.tickets) same ∙ ap (λ db. db.tickets) wrote);
          events = events ∙ (ap (λ x. x.db.events) same ∙ ap (λ db. db.events) wrote);
        }

    handle_register-IsIssued :
        (ctx : Context) (s : Session) (answer : RegisterResponse)
        → (handle_register d uuid_text parse_uuid payload hash render print_time ctx body ticket
            note now db_now s).0
          ≡ sent answer
        → IsIssued ctx s.db answer
            (handle_register d uuid_text parse_uuid payload hash render print_time ctx body ticket
              note now db_now s).1.db
    unfolding handle_register best_effort
    handle_register-IsIssued ctx s answer h = elim (Reply-cases (need_body body s).0) [
      | inl a ↦ absurd (ground (arith, a, h))
      | inr (text, a) ↦ elim (Option-cases (parse_uuid (trim_space text))) [
        | inl b ↦ absurd (ground (arith, a, b, h))
        | inr (event, b) ↦ elim (Option-cases ctx.user_id) [
          | inl c ↦ absurd (ground (arith, a, b, c, h))
          | inr (user, c) ↦
              let issue = issue_ticket payload hash render user event ticket now db_now in
              elim (Reply-cases (call d issue s).0) [
                | inl e ↦ absurd (ground (arith, a, b, c, e, h))
                | inr (issued, e) ↦
                    let left = call-session d issue s in
                    let told =
                      confirm-tables uuid_text print_time user event issued note now
                        (call d issue s).1 in
                    issued-IsIssued ctx s user event text issued answer _ c
                      (need_body-sent body s text a, b) e (ground (arith, a, b, c, e, h))
                      (ground (arith, a, b, c, e, told, left))
                      (ground (arith, a, b, c, e, told, left))
              ]
        ]
      ]
    ]

    -- POST /tickets/register, whatever fails around it: a request that is answered comes from an
    -- authenticated student, who now holds the new ticket of the event whose id the body has, admitted as
    -- that event's rules demand, with one seat taken; the confirmation email changes none of it, whether it is queued
    -- or fails.
    pub post_register-IsIssued :
        (parse : String → String → Option Claims) (j : Jwt) (header : String) (s : Session)
        (answer : RegisterResponse)
        → let after =
            post_register d uuid_text parse_uuid parse j payload hash render print_time header body
              ticket note now db_now s in
          after.0 ≡ sent answer
          → (ctx : Context) × IsAuthenticated parse parse_uuid j header ctx
            × (has_role ctx.roles Role.student ≡ true)
            × IsIssued ctx s.db answer after.1.db
    unfolding post_register
    post_register-IsIssued parse j header s answer h =
        let next : Context → Handler RegisterResponse = λ ctx.
          handle_register d uuid_text parse_uuid payload hash render print_time ctx body ticket note
            now db_now in
        elim (entry parse parse_uuid j (Role.student ∷ []) header next s) [
          | turned_away a b ↦ absurd (ground (arith, a, h))
          | let_in ctx inside caller role same runs ↦
              let issued =
                handle_register-IsIssued ctx inside answer (ap (λ x. x.0) (sym runs) ∙ h) in
              (
                ctx,
                caller,
                granted_has Role.student ctx.roles role,
                subst (λ db. IsIssued ctx s.db answer db) (ap (λ x. x.1.db) (sym runs))
                    (subst (λ before. IsIssued ctx before answer (next ctx inside).1.db) same
                      issued),
              )
        ]
