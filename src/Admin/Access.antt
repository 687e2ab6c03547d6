-- ===== src/Admin/Access.antt =====
-- Who may use the admin's routes.
use senior_project.Common.{ℕ, String, Bool, true, false, ◌≡◌, ◌⊎◌, inl, inr, Option}
use senior_project.Tables.{Database, Role}
use senior_project.Sql.{Session}
use senior_project.Auth.Roles.{has_role}
use senior_project.Auth.Jwt.{Claims, Jwt}
use senior_project.Http.Errors.{Driver}
use senior_project.Http.Handlers.{is_sent, Handler, Body, Reply}
use senior_project.Http.Guards.{Context}
use senior_project.Http.Guards.Laws.{
  granted_has, IsAuthenticated, route, entry, turned_away, let_in,
}
use senior_project.Admin.Handlers.{
  admins, ModerateEventRequest, handle_set_user_role, handle_moderate_event, patch_user_role,
  post_moderation,
}

module _ (parse : String → String → Option Claims) (parse_uuid : String → Option ℕ) (j : Jwt)
    (header : String) where
  -- The request carries a valid token of an admin.
  pub record IsAdmin : Type 0 where
    pub ctx : Context
    pub caller : IsAuthenticated parse parse_uuid j header ctx
    pub is_admin : has_role ctx.roles Role.admin ≡ true

  -- A refusal that writes nothing, or the request of an admin.
  abbrev pub OnlyAdmins : {A : Type 0} → Database → Reply A × Session → Type 0
  OnlyAdmins before answer = ((is_sent answer.0 ≡ false) × (answer.1.db ≡ before)) ⊎ IsAdmin

  for_admins :
      {A : Type 0} (next : Context → Handler A) (s : Session)
      → OnlyAdmins s.db (route parse parse_uuid j admins header next s)
  for_admins next s = elim (entry parse parse_uuid j admins header next s) [
    | turned_away a b ↦ inl (a, b)
    | let_in ctx inside caller role same runs ↦
        inr
          (record { ctx = ctx; caller = caller; is_admin = granted_has Role.admin ctx.roles role })
  ]

  -- POST /admin/events/{id}/moderate and PATCH /admin/users/{id}/role, whatever fails around them: each
  -- is refused with no table changed, or its header has a valid token of an admin.
  pub admin_routes-OnlyAdmins :
      (d : Driver) (uuid_text : ℕ → String) (quote : String → String)
      (print_time print_nano : ℕ → String) (collate ilike : String → String → Bool)
      (id_text : String) (request : Body ModerateEventRequest) (role : Body String)
      (log note now db_now : ℕ) (s : Session)
      → OnlyAdmins s.db (
          post_moderation d uuid_text parse_uuid quote print_time print_nano collate ilike parse j
            header id_text request log note now db_now s)
        × OnlyAdmins s.db (
            patch_user_role d uuid_text parse_uuid quote print_time print_nano collate ilike parse j
              header id_text role log db_now s)
  unfolding post_moderation patch_user_role
  admin_routes-OnlyAdmins d uuid_text quote print_time print_nano collate ilike id_text request role
        log note now db_now s =
      (
        for_admins
            (λ ctx.
              handle_moderate_event d uuid_text parse_uuid quote print_time print_nano collate ilike
                ctx id_text request log note now db_now)
            s,
        for_admins
            (λ ctx.
              handle_set_user_role d uuid_text parse_uuid quote print_time print_nano collate ilike
                ctx id_text role log db_now)
            s,
      )
