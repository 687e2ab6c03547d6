-- ===== src/Http/Guards/Laws.antt =====
-- What a request has shown when the handler behind `AuthMiddleware` and `RequireRole` runs.
use senior_project.Common.{
  ℕ, String, true, false, ◌≡◌, refl, inl, inr, Option-cases, Option, some, List, lower_is, arith,
  ap, ◌∙◌, [], ◌∷◌,
}
use senior_project.Tables.{Role}
use senior_project.Sql.{Session}
use senior_project.Auth.Roles.Verdicts.{require_role_iff}
use senior_project.Auth.Roles.{has_role, member, Access, require_role, effective_roles_from_claims}
use senior_project.Auth.Jwt.{Claims, Jwt, parse_access_token}
use senior_project.Http.Handlers.{sent, is_sent, Handler}
use senior_project.Http.Handlers.Laws.{IsReadOnly, onward, stopped, went_on}
use senior_project.Http.Guards.{
  Context, with_access_claims, split_space, authenticate, auth_middleware, guarded,
}

only_role :
    (r x : Role) (roles : Option (List Role))
    → has_role roles x ≡ true
    → member x (r ∷ []) ≡ true
    → has_role roles r ≡ true
only_role Role.student Role.student roles h m = h
only_role Role.organizer Role.organizer roles h m = h
only_role Role.admin Role.admin roles h m = h
only_role Role.student Role.organizer roles h m = cc
only_role Role.student Role.admin roles h m = cc
only_role Role.organizer Role.student roles h m = cc
only_role Role.organizer Role.admin roles h m = cc
only_role Role.admin Role.student roles h m = cc
only_role Role.admin Role.organizer roles h m = cc

-- A route of one role lets in callers who have it.
pub granted_has :
    (r : Role) (roles : Option (List Role))
    → require_role (r ∷ []) roles ≡ Access.granted
    → has_role roles r ≡ true
granted_has r roles h =
    let (x, has, among) = (require_role_iff (r ∷ []) roles).0 h in only_role r x roles has among

module _ (parse : String → String → Option Claims) (parse_uuid : String → Option ℕ) (j : Jwt) where
  -- The header is `Bearer` and a token that the JWT check lets through, and the context is what its
  -- claims say.
  pub record IsAuthenticated (header : String) (ctx : Context) : Type 0 where
    pub scheme : String
    pub token : String
    pub claims : Claims
    pub roles : List Role
    pub user : ℕ
    pub parts : split_space header ≡ some (scheme, token)
    pub bearer : lower_is scheme "bearer" ≡ true
    pub accepted : parse_access_token parse j token ≡ some claims
    pub carried : effective_roles_from_claims claims.roles claims.role ≡ some roles
    pub named : parse_uuid claims.user_id ≡ some user
    pub told : ctx ≡ with_access_claims user roles

  pub authenticate-IsReadOnly :
      (header : String) → IsReadOnly (authenticate parse parse_uuid j header)
  unfolding authenticate
  authenticate-IsReadOnly header s = elim (Option-cases (split_space header)) [
    | inl a ↦ ground (arith, a)
    | inr ((scheme, token), a) ↦ elim (Option-cases (parse_access_token parse j token)) [
      | inl b ↦ ground (arith, a, b)
      | inr (claims, b) ↦ ground (arith, a, b)
    ]
  ]

  pub authenticate-IsAuthenticated :
      (header : String) (s : Session) (ctx : Context)
      → (authenticate parse parse_uuid j header s).0 ≡ sent ctx
      → IsAuthenticated header ctx
  unfolding authenticate
  authenticate-IsAuthenticated header s ctx h = elim (Option-cases (split_space header)) [
    | inl a ↦ absurd (ground (arith, h, a))
    | inr ((scheme, token), a) ↦ elim (Option-cases (parse_access_token parse j token)) [
      | inl b ↦ absurd (ground (arith, h, a, b))
      | inr (claims, b) ↦
          elim (Option-cases (effective_roles_from_claims claims.roles claims.role)) [
            | inl c ↦ absurd (ground (arith, h, a, b, c))
            | inr (roles, c) ↦ elim (Option-cases (parse_uuid claims.user_id)) [
              | inl e ↦ absurd (ground (arith, h, a, b, c, e))
              | inr (user, e) ↦ record {
                scheme = scheme;
                token = token;
                claims = claims;
                roles = roles;
                user = user;
                parts = a;
                bearer = ground (arith, h, a, b, c, e);
                accepted = b;
                carried = c;
                named = e;
                told = ground (arith, h, a, b, c, e);
              }
            ]
          ]
    ]
  ]

  module _ {A : Type 0} (allowed : List Role) (header : String) (next : Context → Handler A) where
    abbrev pub route : Handler A
    route = auth_middleware parse parse_uuid j header (λ ctx. guarded allowed ctx (next ctx))

    -- A request of a guarded route is refused with nothing written, or the handler runs, on the tables
    -- as they are, for a caller who is authenticated and has one of the roles.
    pub data Entry (s : Session) : Type 0 where
      turned_away : is_sent (route s).0 ≡ false → (route s).1.db ≡ s.db → Entry s
      let_in :
          (ctx : Context) (inside : Session)
          → IsAuthenticated header ctx
          → require_role allowed ctx.roles ≡ Access.granted
          → inside.db ≡ s.db
          → route s ≡ next ctx inside
          → Entry s

    guarded_entry :
        (s : Session) (ctx : Context) (access : Access)
        → require_role allowed ctx.roles ≡ access
        → (authenticate parse parse_uuid j header s).0 ≡ sent ctx
        → route s ≡ guarded allowed ctx (next ctx) (authenticate parse parse_uuid j header s).1
        → Entry s
    unfolding guarded
    guarded_entry s ctx Access.missing_role a b c =
        turned_away (ground (arith, a, c)) (ground (arith, a, c, authenticate-IsReadOnly header s))
    guarded_entry s ctx Access.insufficient_permissions a b c =
        turned_away (ground (arith, a, c)) (ground (arith, a, c, authenticate-IsReadOnly header s))
    guarded_entry s ctx Access.granted a b c =
        let_in ctx (authenticate parse parse_uuid j header s).1
          (authenticate-IsAuthenticated header s ctx b) a (authenticate-IsReadOnly header s)
          (ground (arith, a, c))

    pub entry : (s : Session) → Entry s
    unfolding auth_middleware
    entry s =
        elim (onward (authenticate parse parse_uuid j header)
          (λ ctx. guarded allowed ctx (next ctx)) s) [
            | stopped a b c ↦ turned_away b (ap (λ x. x.db) c ∙ authenticate-IsReadOnly header s)
            | went_on ctx b c ↦ guarded_entry s ctx (require_role allowed ctx.roles) refl b c
          ]
