-- ===== src/Events/Ownership.antt =====
-- Who may change an event.
use senior_project.Common.{
  ℕ, String, Bool, true, false, ◌≡◌, ◌⊎◌, inl, inr, ap, ◌∙◌, Option-cases, Option, some, arith,
  first_where,
}
use mathlib.Core.Path.{subst}
use senior_project.Tables.{Database, Event}
use senior_project.Sql.{Session}
use senior_project.Sql.Laws.{statement-db}
use senior_project.Auth.Roles.{Access, require_role}
use senior_project.Auth.Jwt.{Claims, Jwt}
use senior_project.Http.Errors.{Driver}
use senior_project.Http.Handlers.{sent, is_sent, Reply-cases, Handler, Body, call, translate, ◌>>=◌}
use senior_project.Http.Guards.{Context, is_plain_organizer}
use senior_project.Http.Handlers.Laws.{onward, stopped, went_on}
use senior_project.Http.Guards.Laws.{IsAuthenticated, route, entry, turned_away, let_in}
use senior_project.Ticketing.Statements.{event_is}
use senior_project.Events.Repository.{get_event}
use senior_project.Events.Patch.{EventPatch}
use senior_project.Events.Listing.{owned_by}
use senior_project.Events.Handlers.{
  own_event, not_owner, handle_update, handle_delete, put_event, delete_event_route, organizers,
  modify_event, remove_event,
}

-- The event's row is there, and a caller who is an organizer and no admin is its organizer. That the
-- caller is one or the other is the route's guard (`role` of `IsEntitled`).
pub record IsAllowed (db : Database) (ctx : Context) (id : ℕ) (e : Event) : Type 0 where
  pub user : ℕ
  pub known : ctx.user_id ≡ some user
  pub found : first_where (event_is id) db.events ≡ some e
  pub owned : is_plain_organizer ctx ≡ true → owned_by user e.organizer_id ≡ true

module _ (d : Driver) (parse_uuid : String → Option ℕ) (ctx : Context)
    (id_text refusal : String) where
  pub get_event-ok :
      (id : ℕ) (s : Session)
      → ((call d (get_event id) s).1.db ≡ s.db)
        × ((e : Event)
            → (call d (get_event id) s).0 ≡ sent e
            → first_where (event_is id) s.db.events ≡ some e)
  unfolding call translate get_event
  get_event-ok id s = (ground (arith, statement-db s), λ e h. ground (arith, statement-db s, h))

  own_event-db : (s : Session) → (own_event d parse_uuid ctx id_text refusal s).1.db ≡ s.db
  unfolding own_event
  own_event-db s = elim (Option-cases (parse_uuid id_text)) [
    | inl h ↦ ground (arith, h)
    | inr (id, h) ↦ ground (arith, h, get_event-ok id s)
  ]

  own_event-IsAllowed :
      (s : Session) (id : ℕ) (e : Event)
      → (own_event d parse_uuid ctx id_text refusal s).0 ≡ sent (id, e)
      → (parse_uuid id_text ≡ some id) × IsAllowed s.db ctx id e
  unfolding own_event not_owner
  own_event-IsAllowed s id e sent_it = elim (Option-cases (parse_uuid id_text)) [
    | inl h ↦ absurd (ground (arith, h, sent_it))
    | inr (k, h) ↦ elim (Option-cases ctx.user_id) [
      | inl g ↦ absurd (ground (arith, h, g, sent_it))
      | inr (user, g) ↦ elim (Reply-cases (call d (get_event k) s).0) [
        | inl q ↦ absurd (ground (arith, h, g, q, sent_it))
        | inr (row, q) ↦
            let facts : (k ≡ id)
                × (row ≡ e)
                × (is_plain_organizer ctx ≡ true → owned_by user row.organizer_id ≡ true) =
              (
                ground (arith, h, g, q, sent_it),
                ground (arith, h, g, q, sent_it),
                λ plain. ground (arith, h, g, q, sent_it, plain),
              ) in
            let at : IsAllowed s.db ctx k row = record {
              user = user;
              known = g;
              found = (get_event-ok k s).1 row q;
              owned = facts.2;
            } in
            (
              h ∙ ap some facts.0,
              subst (IsAllowed s.db ctx id) facts.1
                  (subst (λ n. IsAllowed s.db ctx n row) facts.0 at),
            )
      ]
    ]
  ]

  -- What begins with `own_event` refuses and writes nothing, or its caller may change the event.
  own_event-guard :
      {B : Type 0} (f : ℕ × Event → Handler B) (s : Session)
      → let whole = own_event d parse_uuid ctx id_text refusal >>= f in
        ((is_sent (whole s).0 ≡ false) × ((whole s).1.db ≡ s.db))
        ⊎ ((id : ℕ) × (e : Event) × (parse_uuid id_text ≡ some id) × IsAllowed s.db ctx id e)
  own_event-guard f s = elim (onward (own_event d parse_uuid ctx id_text refusal) f s) [
    | stopped a b c ↦ inl (b, ap (λ x. x.db) c ∙ own_event-db s)
    | went_on row b c ↦
        let (parsed, allowed) = own_event-IsAllowed s row.0 row.1 b in
        inr (row.0, row.1, parsed, allowed)
  ]

-- What a request to change an event has shown: who its caller is and that the event is theirs.
pub record IsEntitled (parse : String → String → Option Claims) (parse_uuid : String → Option ℕ)
    (j : Jwt) (header id_text : String) (db : Database) : Type 0 where
  pub ctx : Context
  pub id : ℕ
  pub event : Event
  pub caller : IsAuthenticated parse parse_uuid j header ctx
  pub role : require_role organizers ctx.roles ≡ Access.granted
  pub named : parse_uuid id_text ≡ some id
  pub allowed : IsAllowed db ctx id event

module _ (parse : String → String → Option Claims) (parse_uuid : String → Option ℕ) (j : Jwt)
    (header id_text : String) where
  entitled :
      {B : Type 0} (next : Context → Handler B) (s : Session)
      → ((ctx : Context) (inside : Session)
          → ((is_sent (next ctx inside).0 ≡ false) × ((next ctx inside).1.db ≡ inside.db))
            ⊎ ((id : ℕ) × (e : Event) × (parse_uuid id_text ≡ some id)
                × IsAllowed inside.db ctx id e))
      → ((is_sent (route parse parse_uuid j organizers header next s).0 ≡ false)
          × ((route parse parse_uuid j organizers header next s).1.db ≡ s.db))
        ⊎ IsEntitled parse parse_uuid j header id_text s.db
  entitled next s guard = elim (entry parse parse_uuid j organizers header next s) [
    | turned_away a b ↦ inl (a, b)
    | let_in ctx inside caller role same runs ↦ elim (guard ctx inside) [
      | inl (a, b) ↦ inl (ap (λ x. is_sent x.0) runs ∙ a, ap (λ x. x.1.db) runs ∙ (b ∙ same))
      | inr (id, e, named, allowed) ↦ inr (record {
        ctx = ctx;
        id = id;
        event = e;
        caller = caller;
        role = role;
        named = named;
        allowed = subst (λ db. IsAllowed db ctx id e) same allowed;
      })
    ]
  ]

  -- PUT /events/{id}, whatever fails around it: either it is refused and no table changes, or its
  -- header has a valid token of an organizer or an admin, the event is there, and a caller who is an
  -- organizer and no admin is the organizer of that event.
  pub put_event-IsEntitled :
      (d : Driver) (uuid_text : ℕ → String) (ilike : String → String → Bool)
      (parse_time : String → Option ℕ) (rule_text : String) (body : Body EventPatch) (db_now : ℕ)
      (s : Session)
      → let answer =
          put_event d uuid_text parse_uuid ilike parse_time rule_text parse j header id_text body
            db_now s in
        ((is_sent answer.0 ≡ false) × (answer.1.db ≡ s.db))
        ⊎ IsEntitled parse parse_uuid j header id_text s.db
  unfolding put_event handle_update
  put_event-IsEntitled d uuid_text ilike parse_time rule_text body db_now s =
      entitled
        (λ ctx.
          handle_update d uuid_text parse_uuid ilike parse_time rule_text ctx id_text body db_now)
        s
        (λ ctx inside.
          own_event-guard d parse_uuid ctx id_text "not allowed to modify this event"
            (modify_event d uuid_text parse_uuid ilike parse_time rule_text body db_now) inside)

  -- DELETE /events/{id}, whatever fails around it: either it is refused and no table changes, or its
  -- header has a valid token of an organizer or an admin, the event is there, and a caller who is an
  -- organizer and no admin is the organizer of that event.
  pub delete_event_route-IsEntitled :
      (d : Driver) (s : Session)
      → let answer = delete_event_route d parse_uuid parse j header id_text s in
        ((is_sent answer.0 ≡ false) × (answer.1.db ≡ s.db))
        ⊎ IsEntitled parse parse_uuid j header id_text s.db
  unfolding delete_event_route handle_delete
  delete_event_route-IsEntitled d s =
      entitled (λ ctx. handle_delete d parse_uuid ctx id_text) s
        (λ ctx inside.
          own_event-guard d parse_uuid ctx id_text "not allowed to delete this event"
            (remove_event d parse_uuid) inside)
