-- ===== src/Auth/Roles/Verdicts.antt =====
-- What the role checks decide (internal/infra/auth/jwt.go and middleware.go).
use senior_project.Common.{
  String, ◌≤◌, ◌≡◌, ◌≢◌, ◌↔◌, refl, true, Option, none, some, List, [], ◌∷◌, arith, sym, ◌∙◌,
  Option-cases, Bool-cases, inl, inr,
}
use senior_project.Tables.{Role}
use senior_project.Auth.Users.{rank}
use senior_project.Auth.Roles.{
  member, size, dedupe_roles_sorted, tally, roles_equal, parse_roles, claimed_roles, some_if_any,
  effective_roles_from_claims, primary_role, shares_role, has_role, require_role, Access,
}
use senior_project.Auth.Roles.Laws.{
  is_sorted_strictly, above, mentions, claims_named, occurrences, parse_roles-member, dedupe-sorted,
  dedupe-member, tally-count, size-count, take_off-zero, zero-take_off, same_role→≡, same_role_refl,
}

claimed_roles-parse :
    (roles : List String) (legacy : String)
    → claimed_roles roles legacy ≡ parse_roles (claims_named roles legacy)
unfolding claimed_roles parse_roles
claimed_roles-parse [] legacy = ground arith
claimed_roles-parse (text ∷ texts) legacy = refl

some_if_any-same : (xs out : List Role) → some_if_any xs ≡ some out → (out ≡ xs) × (out ≢ [])
unfolding some_if_any
some_if_any-same [] out h = cc
some_if_any-same (x ∷ xs) out h = (ground arith, ground arith)

-- The roles that a token gives its bearer are in the order of their texts without a repetition, at
-- least one, and exactly those that its claims name: the claim `roles`, or `role` where that is empty.
pub effective_roles_from_claims-claims :
    (roles : List String) (legacy : String) (out : List Role)
    → effective_roles_from_claims roles legacy ≡ some out
    → (is_sorted_strictly out ≡ true)
      × (out ≢ [])
      × ((r : Role) → member r out ≡ mentions r (claims_named roles legacy))
unfolding effective_roles_from_claims
effective_roles_from_claims-claims roles legacy out h =
    elim (Option-cases (claimed_roles roles legacy)) [
      | inl e ↦ absurd (ground (arith, e))
      | inr (xs, e) ↦
          let (same, any) = some_if_any-same (dedupe_roles_sorted xs) out (ground (arith, h, e)) in
          (
            rw same (dedupe-sorted xs),
            any,
            λ r.
                rw same (dedupe-member xs r)
                ∙ parse_roles-member (claims_named roles legacy) xs r
                    (sym (claimed_roles-parse roles legacy) ∙ e),
          )
    ]

same_counts-size :
    (a b : List Role) → ((r : Role) → occurrences r a ≡ occurrences r b) → size a ≡ size b
same_counts-size a b h =
    ground (arith, size-count a, size-count b, h Role.student, h Role.organizer, h Role.admin)

-- `RolesEqual` says yes exactly when every role stands equally often in both lists, in any order.
pub roles_equal_iff :
    (a b : List Role) → (roles_equal a b ≡ true) ↔ ((r : Role) → occurrences r a ≡ occurrences r b)
unfolding roles_equal
roles_equal_iff a b = (
  λ h r. sym (tally-count a r) ∙ take_off-zero b (tally a) (ground (arith, h)) r,
  λ h.
      ground
        (arith, same_counts-size a b h, zero-take_off b (tally a) (λ r. tally-count a r ∙ h r)),
)

-- A role that both lists hold.
abbrev pub SharedRole : List Role → List Role → Type 0
SharedRole allowed roles = (r : Role) × (member r roles ≡ true) × (member r allowed ≡ true)

shares_role-found :
    (allowed roles : List Role) → shares_role allowed roles ≡ true → SharedRole allowed roles
shares_role-found allowed [] h = cc
shares_role-found allowed (x ∷ xs) h = elim (Bool-cases (member x allowed)) [
  | inl e ↦ (x, ground (arith, same_role_refl x), e)
  | inr e ↦
      let (r, held, ok) = shares_role-found allowed xs (ground (arith, e)) in
      (r, ground (arith, held), ok)
]

shares_role-holds :
    (allowed roles : List Role) (r : Role)
    → member r roles ≡ true
    → member r allowed ≡ true
    → shares_role allowed roles ≡ true
shares_role-holds allowed [] r h ok = cc
shares_role-holds allowed (x ∷ xs) r h ok =
    ground (arith, same_role→≡ x r, shares_role-holds allowed xs r)

-- `RequireRole` lets a request through exactly when the request carries one of the allowed roles.
pub require_role_iff :
    (allowed : List Role) (carried : Option (List Role))
    → (require_role allowed carried ≡ Access.granted)
      ↔ ((r : Role) × (has_role carried r ≡ true) × (member r allowed ≡ true))
unfolding require_role has_role
require_role_iff allowed none = (λ h. cc, λ h. cc)
require_role_iff allowed (some []) = (λ h. cc, λ h. cc)
require_role_iff allowed (some (x ∷ xs)) = (
  λ h. shares_role-found allowed (x ∷ xs) (ground (arith, h)),
  λ (r, held, ok). ground (arith, shares_role-holds allowed (x ∷ xs) r held ok),
)

above-member :
    (x r : Role) (xs : List Role) → above x xs ≡ true → member r xs ≡ true → rank x ≤ rank r
above-member x r [] h m = cc
above-member x r (y ∷ xs) h m = ground (arith, above-member x r xs)

-- Of roles in the order of their texts without a repetition, which is how a token's roles are
-- kept, `PrimaryRole` picks the first.
pub primary_role-first :
    (r : Role) (rs : List Role)
    → is_sorted_strictly (r ∷ rs) ≡ true
    → primary_role (r ∷ rs) ≡ some r
unfolding primary_role
primary_role-first Role.admin rs h = refl
primary_role-first Role.organizer rs h = ground (arith, above-member Role.organizer Role.admin rs)
primary_role-first Role.student rs h =
    ground
      (arith, above-member Role.student Role.admin rs, above-member Role.student Role.organizer rs)
