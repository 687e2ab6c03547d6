-- ===== src/Auth/Renewal.antt =====
-- What `Refresh` promises: the token that is handed in is used up.
use senior_project.Common.{
  ℕ, String, ◌+◌, ◌≤◌, ◌≡◌, refl, Bool, true, false, ◌&&◌, Option, none, some, List, ◌∷◌, arith, ap,
  sym, ◌∙◌, inl, inr, Bool-cases, Option-cases, count_where, update_where, first_where,
  first_where_holds, count_where-le, ==→≡, count_where-update_where, ==→≡,
}
use mathlib.Core.Path.{subst}
use senior_project.Errors.{Result, ok, is_ok, Result-cases}
use senior_project.Tables.{Database, RefreshToken, Role}
use senior_project.Sql.{Session, statement}
use senior_project.Sql.Laws.{statement-db}
use senior_project.Ticketing.Statements.{is_user}
use senior_project.Auth.Tokens.{token_is, live_of, consumable, revoked, consume_refresh_token}
use senior_project.Auth.Users.{User, merge_role_rows, get_user_by_id}
use senior_project.Auth.Roles.{roles_equal, effective_roles_from_claims}
use senior_project.Auth.Jwt.{Claims, Jwt, parse_refresh_token}
use senior_project.Auth.Service.{exchange, refresh, or_invalid, sign_access, sign_refresh, lifted}
use senior_project.Auth.Sessions.{fresh_token, insert-ok, consume-ok, count-revoked}

get_user_by_id-db : (id : ℕ) (s : Session) → (get_user_by_id id s).1.db ≡ s.db
unfolding get_user_by_id merge_role_rows
get_user_by_id-db id s = ground (arith, statement-db s, statement-db (statement s).1)

-- The token `jti` of `user` is there and can still be used.
abbrev pub live_token : ℕ → ℕ → RefreshToken → Bool
live_token jti user t = token_is jti t && live_of user t

-- After a consumption and the insertion of a new token, nothing is left to consume.
spent :
    (jti user now later new_jti expires_at : ℕ) (xs : List RefreshToken)
    → now ≤ later
    → 1 ≤ count_where (consumable jti user now) xs
    → count_where (token_is new_jti) (update_where (consumable jti user now) (revoked now) xs) ≡ 0
    → count_where (consumable jti user later) (
        fresh_token new_jti user expires_at
        ∷ update_where (consumable jti user now) (revoked now) xs)
      ≡ 0
spent jti user now later new_jti expires_at xs le live unseen =
    let q = consumable jti user now in
    ground (
      arith,
      ==→≡ new_jti jti,
      count_where-le q (token_is jti) xs (λ x h. ground arith),
      count_where-update_where (token_is jti) q (revoked now) xs (λ x h. refl),
      count-revoked (consumable jti user later) now q xs (λ x h. ground arith) (λ x. ground arith),
    )

module _ (parse : String → String → Option Claims) (sign : String → Claims → Result String)
    (compare_hash : String → String → Bool) (uuid_text : ℕ → String)
    (parse_uuid : String → Option ℕ) (j : Jwt) where
  -- What an exchange has found when it succeeds, and what it has written.
  pub record IsExchanged (claims : Claims) (token_roles : List Role) (u : User) (new_jti now : ℕ)
      (before after : List RefreshToken) : Type 0 where
    pub jti : ℕ
    pub named : parse_uuid claims.id ≡ some jti
    pub roles_match : roles_equal token_roles u.active_roles ≡ true
    pub was_live : 1 ≤ count_where (consumable jti u.row.id now) before
    pub unseen :
        count_where
          (token_is new_jti)
          (update_where (consumable jti u.row.id now) (revoked now) before)
        ≡ 0
    pub wrote :
        after
        ≡ fresh_token new_jti u.row.id (now + j.refresh_ttl)
          ∷ update_where (consumable jti u.row.id now) (revoked now) before

  exchange-ok :
      (claims : Claims) (token_roles : List Role) (u : User) (new_jti now : ℕ) (s : Session)
      → is_ok
          (exchange parse sign compare_hash uuid_text parse_uuid j claims token_roles u new_jti now
            s).0
        ≡ true
      → IsExchanged claims token_roles u new_jti now s.db.refresh_tokens
          (exchange parse sign compare_hash uuid_text parse_uuid j claims token_roles u new_jti now
            s).1.db.refresh_tokens
  unfolding exchange sign_access sign_refresh lifted
  exchange-ok claims token_roles u new_jti now s h = elim (Option-cases (parse_uuid claims.id)) [
    | inl e ↦ absurd (ground (arith, e))
    | inr (jti, e) ↦
        let s1 = (consume_refresh_token jti u.row.id now s).1 in
        record {
          jti = jti;
          named = e;
          roles_match = ground (arith, h, e);
          was_live = ground (arith, h, e, consume-ok jti u.row.id now s);
          unseen = ground (
            arith,
            h,
            e,
            consume-ok jti u.row.id now s,
            insert-ok new_jti u.row.id (now + j.refresh_ttl) s1,
          );
          wrote = ground (
            arith,
            h,
            e,
            consume-ok jti u.row.id now s,
            insert-ok new_jti u.row.id (now + j.refresh_ttl) s1,
          );
        }
  ]

  abbrev run : String → ℕ → ℕ → Session → Result (User × (String × String)) × Session
  run = refresh parse sign compare_hash uuid_text parse_uuid j

  -- What a refresh has found when it succeeds, and what it has written: the claims of the token,
  -- the user they name, and the exchange.
  pub record IsRenewed (text : String) (new_jti now : ℕ) (before after : Database) : Type 0 where
    pub claims : Claims
    pub user : ℕ
    pub u : User
    pub token_roles : List Role
    pub parsed : parse_refresh_token parse j text ≡ some claims
    pub carried : effective_roles_from_claims claims.roles claims.role ≡ some token_roles
    pub bearer : parse_uuid claims.user_id ≡ some user
    pub same_user : u.row.id ≡ user
    pub exchanged :
        IsExchanged claims token_roles u new_jti now before.refresh_tokens after.refresh_tokens

  get_user_by_id-ok :
      (id : ℕ) (s : Session) (u : User) → (get_user_by_id id s).0 ≡ ok u → (u.row.id ≡ id)
  unfolding get_user_by_id merge_role_rows
  get_user_by_id-ok id s u h =
      let rows = (statement s).1.db.users in
      elim (Option-cases (first_where (is_user id) rows)) [
        | inl e ↦ absurd (ground (arith, e))
        | inr (x, e) ↦ ground (arith, h, e, first_where_holds (is_user id) rows {x = x} e)
      ]

  pub refresh-ok :
      (text : String) (new_jti now : ℕ) (s : Session)
      → is_ok (run text new_jti now s).0 ≡ true
      → IsRenewed text new_jti now s.db (run text new_jti now s).1.db
  unfolding refresh or_invalid
  refresh-ok text new_jti now s h = elim (Option-cases (parse_refresh_token parse j text)) [
    | inl e ↦ absurd (ground (arith, e))
    | inr (claims, e) ↦ elim (Option-cases (effective_roles_from_claims claims.roles claims.role)) [
      | inl e1 ↦ absurd (ground (arith, e, e1))
      | inr (token_roles, e1) ↦ elim (Option-cases (parse_uuid claims.user_id)) [
        | inl e2 ↦ absurd (ground (arith, e, e1, e2))
        | inr (user, e2) ↦ elim (Result-cases (get_user_by_id user s).0) [
          | inl e3 ↦ absurd (ground (arith, h, e, e1, e2, e3))
          | inr (u, e3) ↦
              let s1 = (get_user_by_id user s).1 in
              let ran : run text new_jti now s
                  ≡ exchange parse sign compare_hash uuid_text parse_uuid j claims token_roles u
                      new_jti now s1 =
                ground (arith, e, e1, e2, e3) in
              record {
                claims = claims;
                user = user;
                u = u;
                token_roles = token_roles;
                parsed = e;
                carried = e1;
                bearer = e2;
                same_user = get_user_by_id-ok user s u e3;
                exchanged =
                    subst
                      (λ db.
                        IsExchanged claims token_roles u new_jti now db.refresh_tokens
                          (run text new_jti now s).1.db.refresh_tokens)
                      (get_user_by_id-db user s)
                      (subst
                        (λ x.
                          IsExchanged claims token_roles u new_jti now s1.db.refresh_tokens
                            x.1.db.refresh_tokens)
                        (sym ran)
                        (exchange-ok claims token_roles u new_jti now s1
                          (subst (λ x. is_ok x.0 ≡ true) ran h)));
              }
        ]
      ]
    ]
  ]

  twice :
      (text : String) (new_jti now : ℕ) (s : Session) (after : Database)
      → IsRenewed text new_jti now s.db after
      → (later_jti later : ℕ) → now ≤ later
      → (s' : Session) (after' : Database) → s'.db.refresh_tokens ≡ after.refresh_tokens
      → IsRenewed text later_jti later s'.db after'
      → ⊥
  twice text new_jti now s after a later_jti later le s' after' same b =
      let jti = a.exchanged.jti in
      let claims_same : some a.claims ≡ some b.claims = sym a.parsed ∙ b.parsed in
      let user_same : some a.user ≡ some b.user =
        sym a.bearer
        ∙ ap (λ c. elim c [ none ↦ none | some c ↦ parse_uuid c.user_id ]) claims_same
        ∙ b.bearer in
      let jti_same : some jti ≡ some b.exchanged.jti =
        sym a.exchanged.named
        ∙ ap (λ c. elim c [ none ↦ none | some c ↦ parse_uuid c.id ]) claims_same
        ∙ b.exchanged.named in
      ground (
        arith,
        same,
        user_same,
        jti_same,
        a.same_user,
        b.same_user,
        a.exchanged.wrote,
        b.exchanged.was_live,
        spent jti a.u.row.id now later new_jti (now + j.refresh_ttl) s.db.refresh_tokens le
            a.exchanged.was_live a.exchanged.unseen,
      )

  -- A refresh token is used at most once: after a refresh that is answered with a new pair, a second
  -- one with the same text is refused, at the same or a later clock and with whatever faults, when the
  -- refresh tokens are as the first one left them.
  pub refresh_once :
      (text : String) (new_jti now : ℕ) (s : Session)
      → is_ok (run text new_jti now s).0 ≡ true
      → (later_jti later : ℕ) → now ≤ later
      → (s' : Session) → s'.db.refresh_tokens ≡ (run text new_jti now s).1.db.refresh_tokens
      → is_ok (run text later_jti later s').0 ≡ false
  refresh_once text new_jti now s h later_jti later le s' same =
      elim (Bool-cases (is_ok (run text later_jti later s').0)) [
        | inr e ↦ e
        | inl e ↦ absurd (
            twice text new_jti now s (run text new_jti now s).1.db (refresh-ok text new_jti now s h)
              later_jti later le s' (run text later_jti later s').1.db same
              (refresh-ok text later_jti later s' e))
      ]
