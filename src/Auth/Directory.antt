-- ===== src/Auth/Directory.antt =====
-- auth/repository/postgres.go: `ListUsers`.
use Prim.Native.Nat.{min}
use Prim.Native.String.{◌++◌ as join}
use senior_project.Common.{
  String, Bool, if◌then◌else◌, List, [], ◌∷◌, ℤ, map, select_where, page, trim_space,
}
use senior_project.Tables.{UserRow}
use senior_project.Sql.{Action, reading, ◌>>◌, statement}
use senior_project.Auth.Users.{User}
use senior_project.Events.Listing.{effective_limit, effective_offset, if_text}

-- The rows without the column `password_hash`, and without the roles of `user_roles`.
abbrev pub listed_user : UserRow → User
listed_user u = record {
  row = record u { password_hash = "" };
  active_roles = [];
  pending_roles = [];
}

-- `collate a b` is that `a` does not come after `b` in the order of the database's texts, and `ilike`
-- is the operator ILIKE.
module _ (collate : String → String → Bool) (ilike : String → String → Bool) where
  unfoldable pub insert_by_email : UserRow → List UserRow → List UserRow
  insert_by_email u [] = u ∷ []
  insert_by_email u (v ∷ vs) =
      let rest = insert_by_email u vs in if collate u.email v.email then u ∷ v ∷ vs else v ∷ rest

  unfoldable pub by_email : List UserRow → List UserRow
  unfolding insert_by_email
  by_email [] = []
  by_email (u ∷ us) = insert_by_email u (by_email us)

  unfoldable pub email_matches : String → UserRow → Bool
  unfolding trim_space
  email_matches q u = if_text q (λ text. ilike u.email (join "%" (join text "%")))

  -- The limit is 20 where it is not positive, and 100 at most.
  unfoldable pub list_users : String → ℤ → ℤ → Action (List User)
  unfolding by_email email_matches effective_limit effective_offset
  list_users q limit offset = do
    statement
    reading (λ db. map listed_user (
        page (min (effective_limit limit) 100) (effective_offset offset)
          (by_email (select_where (email_matches q) db.users))))
