-- ===== src/Auth/RoleRows.antt =====
-- The rows of user_roles after `syncUserRolesInTx` of auth/repository/postgres.go.
use senior_project.Common.{
  ℕ, ◌∙◌, ◌≡◌, refl, Bool, true, false, not, ltb, ◌&&◌, ◌||◌, List, [], ◌∷◌, arith, count_where,
  update_where, delete_where, count_where-le, count_where-update_where, count_where-delete_all, ◌∙◌,
}
use senior_project.Tables.{UserRoleRow, Role, RoleStatus}
use senior_project.Auth.Roles.Laws.{same_role→≡}
use senior_project.Auth.Users.{
  same_role, is_active_role, roles_of, role_row, with_role_status, upserted,
}

-- The roles that a user has with a role: an organizer is a student too, an admin is nothing else.
abbrev pub implied : Role → Role → Bool
implied Role.student r = same_role r Role.student
implied Role.organizer r = same_role r Role.student || same_role r Role.organizer
implied Role.admin r = same_role r Role.admin

abbrev pub held_row : ℕ → Role → UserRoleRow → Bool
held_row user r x = role_row user r x && is_active_role x.status

abbrev pub asked_row : ℕ → Role → UserRoleRow → Bool
asked_row user r x = role_row user r x && not (is_active_role x.status)

abbrev active_now : UserRoleRow → UserRoleRow
active_now = with_role_status RoleStatus.active

activated-held :
    (user : ℕ) (r : Role) (xs : List UserRoleRow)
    → count_where (held_row user r) (update_where (role_row user r) active_now xs)
      ≡ count_where (role_row user r) xs
activated-held user r [] = refl
activated-held user r (x ∷ xs) = ground (arith, activated-held user r xs)

activated-asked :
    (user : ℕ) (r : Role) (xs : List UserRoleRow)
    → count_where (asked_row user r) (update_where (role_row user r) active_now xs) ≡ 0
activated-asked user r [] = refl
activated-asked user r (x ∷ xs) = ground (arith, activated-asked user r xs)

abbrev pub granted_rows : ℕ → Role → List UserRoleRow → List UserRoleRow
granted_rows user role rows = upserted user role RoleStatus.active active_now rows

same_self : (r : Role) → same_role r r ≡ true
same_self r = ground arith

granted-same :
    (user : ℕ) (r : Role) (xs : List UserRoleRow)
    → (ltb 0 (count_where (held_row user r) (granted_rows user r xs)) ≡ true)
      × (count_where (asked_row user r) (granted_rows user r xs) ≡ 0)
granted-same user r xs = ground (
  arith,
  same_self r,
  activated-held user r xs,
  activated-asked user r xs,
  count_where-le (asked_row user r) (role_row user r) xs (λ x h. ground arith),
)

module _ (user : ℕ) (p : UserRoleRow → Bool) (r role : Role) where
  granted-other :
      ((x : UserRoleRow) → p x ≡ true → role_row user r x ≡ true)
      → same_role r role ≡ false
      → (xs : List UserRoleRow) → count_where p (granted_rows user role xs) ≡ count_where p xs
  granted-other h ne xs = ground (
    arith,
    ne,
    same_self role,
    h (record { user_id = user; role = role; status = RoleStatus.active }),
    count_where-update_where p (role_row user role) active_now xs
        (λ x q. ground (arith, ne, h x, h (active_now x))),
  )

-- The rows of a user after `syncUserRolesInTx`.
abbrev pub synced : ℕ → Role → List UserRoleRow → List UserRoleRow
synced user Role.student rows = granted_rows user Role.student (
    delete_where
      (λ x. roles_of user x && (same_role x.role Role.organizer || same_role x.role Role.admin))
      rows)
synced user Role.organizer rows = granted_rows user Role.organizer (
    granted_rows user Role.student
      (delete_where (λ x. roles_of user x && same_role x.role Role.admin) rows))
synced user Role.admin rows =
    record { user_id = user; role = Role.admin; status = RoleStatus.active }
    ∷ delete_where (λ x. roles_of user x && true) rows

-- The user's active roles are those of the role, and no role is pending.
abbrev pub HasRoles : ℕ → Role → List UserRoleRow → Type 0
HasRoles user role rows =
    (r : Role)
    → (ltb 0 (count_where (held_row user r) rows) ≡ implied role r)
      × (count_where (asked_row user r) rows ≡ 0)

covered :
    (user : ℕ) (r : Role) (which : Role → Bool) (x : UserRoleRow)
    → which r ≡ true
    → role_row user r x ≡ true
    → (roles_of user x && which x.role) ≡ true
covered user r which x c h = ground (arith, c, same_role→≡ x.role r)

-- The rows whose role a DELETE covers are gone.
gone :
    (user : ℕ) (r : Role) (which : Role → Bool) (p : UserRoleRow → Bool) (rows : List UserRoleRow)
    → ((x : UserRoleRow) → p x ≡ true → role_row user r x ≡ true)
    → which r ≡ true
    → count_where p (delete_where (λ x. roles_of user x && which x.role) rows) ≡ 0
gone user r which p rows h covers =
    count_where-delete_all p (λ x. roles_of user x && which x.role) rows
      (λ x e. covered user r which x covers (h x e))

held-row :
    (user : ℕ) (r : Role) (x : UserRoleRow) → held_row user r x ≡ true → role_row user r x ≡ true
held-row user r x h = ground arith

asked-row :
    (user : ℕ) (r : Role) (x : UserRoleRow) → asked_row user r x ≡ true → role_row user r x ≡ true
asked-row user r x h = ground arith

module _ (user : ℕ) (r : Role) (which : Role → Bool) (rows : List UserRoleRow) where
  abbrev left : List UserRoleRow
  left = delete_where (λ x. roles_of user x && which x.role) rows

  -- Neither held nor pending after the DELETE.
  none_left :
      which r ≡ true
      → (count_where (held_row user r) left ≡ 0) × (count_where (asked_row user r) left ≡ 0)
  none_left c = (
    gone user r which (held_row user r) rows (held-row user r) c,
    gone user r which (asked_row user r) rows (asked-row user r) c,
  )

-- A grant of another role changes neither count.
same_counts :
    (user : ℕ) (r role : Role) (xs : List UserRoleRow)
    → same_role r role ≡ false
    → (count_where (held_row user r) (granted_rows user role xs) ≡ count_where (held_row user r) xs)
      × (count_where (asked_row user r) (granted_rows user role xs)
          ≡ count_where (asked_row user r) xs)
same_counts user r role xs ne = (
  granted-other user (held_row user r) r role (held-row user r) ne xs,
  granted-other user (asked_row user r) r role (asked-row user r) ne xs,
)

absent :
    (user : ℕ) (r : Role) (xs ys : List UserRoleRow)
    → (count_where (held_row user r) xs ≡ count_where (held_row user r) ys)
      × (count_where (asked_row user r) xs ≡ count_where (asked_row user r) ys)
    → (count_where (held_row user r) ys ≡ 0) × (count_where (asked_row user r) ys ≡ 0)
    → (ltb 0 (count_where (held_row user r) xs) ≡ false) × (count_where (asked_row user r) xs ≡ 0)
absent user r xs ys (a, b) (c, d) = (ground (arith, a, c), b ∙ d)

present :
    (user : ℕ) (r : Role) (xs ys : List UserRoleRow)
    → (count_where (held_row user r) xs ≡ count_where (held_row user r) ys)
      × (count_where (asked_row user r) xs ≡ count_where (asked_row user r) ys)
    → (ltb 0 (count_where (held_row user r) ys) ≡ true) × (count_where (asked_row user r) ys ≡ 0)
    → (ltb 0 (count_where (held_row user r) xs) ≡ true) × (count_where (asked_row user r) xs ≡ 0)
present user r xs ys (a, b) (c, d) = (ground (arith, a, c), b ∙ d)

abbrev unless_student : Role → Bool
unless_student r = same_role r Role.organizer || same_role r Role.admin

abbrev if_admin : Role → Bool
if_admin r = same_role r Role.admin

abbrev any_role : Role → Bool
any_role r = true

pub synced-HasRoles :
    (user : ℕ) (role : Role) (rows : List UserRoleRow) → HasRoles user role (synced user role rows)
synced-HasRoles user Role.student rows Role.student =
    granted-same user Role.student (left user Role.student unless_student rows)
synced-HasRoles user Role.student rows Role.organizer =
    let l = left user Role.organizer unless_student rows in
    let c : (count_where (held_row user Role.organizer) l ≡ 0)
        × (count_where (asked_row user Role.organizer) l ≡ 0) =
      none_left user Role.organizer unless_student rows refl in
    absent user Role.organizer (granted_rows user Role.student l) l
      (same_counts user Role.organizer Role.student l refl) c
synced-HasRoles user Role.student rows Role.admin =
    let l = left user Role.admin unless_student rows in
    absent user Role.admin (granted_rows user Role.student l) l
      (same_counts user Role.admin Role.student l refl)
      (none_left user Role.admin unless_student rows refl)
synced-HasRoles user Role.organizer rows Role.student =
    let l = left user Role.student if_admin rows in
    present user Role.student (granted_rows user Role.organizer (granted_rows user Role.student l))
      (granted_rows user Role.student l)
      (same_counts user Role.student Role.organizer (granted_rows user Role.student l) refl)
      (granted-same user Role.student l)
synced-HasRoles user Role.organizer rows Role.organizer =
    granted-same user Role.organizer
      (granted_rows user Role.student (left user Role.student if_admin rows))
synced-HasRoles user Role.organizer rows Role.admin =
    let l = left user Role.admin if_admin rows in
    let g = granted_rows user Role.student l in
    let c = none_left user Role.admin if_admin rows refl in
    let k = same_counts user Role.admin Role.student l refl in
    absent user Role.admin (granted_rows user Role.organizer g) g
      (same_counts user Role.admin Role.organizer g refl) (k.0 ∙ c.0, k.1 ∙ c.1)
synced-HasRoles user Role.admin rows Role.student =
    let c = none_left user Role.student any_role rows refl in
    (ground (arith, c.0), ground (arith, c.1))
synced-HasRoles user Role.admin rows Role.organizer =
    let c = none_left user Role.organizer any_role rows refl in
    (ground (arith, c.0), ground (arith, c.1))
synced-HasRoles user Role.admin rows Role.admin =
    let c = none_left user Role.admin any_role rows refl in
    (ground (arith, c.0), ground (arith, c.1))
