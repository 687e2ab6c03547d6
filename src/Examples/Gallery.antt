-- ===== src/Examples/Gallery.antt =====
-- Uploads of cover images to a store that keeps what it is given.
use text.Mathlib.TextPositions.{eq_refl}
use senior_project.Common.{
  String, true, ◌≡◌, refl, Option, none, some, [], ◌∷◌, str_eq, if◌then◌else◌, trim_space,
  lower_code, trim_left, trim_right, is_space, trim_slashes, strip_prefix, after_first,
}
use senior_project.Errors.{ok}
use senior_project.Tables.{Database, Role, empty_database}
use senior_project.Sql.{Session, calm, statement, next_fault}
use senior_project.Auth.Roles.{has_role, effective_roles_from_claims, require_role}
use senior_project.Http.Handlers.{Reply, call, call_masked, translate}
use senior_project.Seats.History.{after_call, after_calls}
use senior_project.Http.Guards.{
  Context, is_plain_organizer, authenticate, guarded, auth_middleware, split_space,
}
use senior_project.Auth.Jwt.{parse_access_token}
use senior_project.Events.Repository.{
  create_event, create_row, update_moderation, get_event, update_cover_image,
}
use senior_project.Events.Handlers.{not_owner}
use senior_project.Events.Covers.{
  ObjectStore, IsObjectStore, Image, image, checked_image, content_type_to_ext, extract_object_name,
  cover_event, remove_other, without_old, after_row, after_upload, after_image, after_event,
  upload_cover_image, after_guard, post_cover_image,
}
use senior_project.Events.Covers.Posted.{IsPosted, post_cover_image-IsPosted}
use senior_project.Examples.World.{open_world, the_event}
use senior_project.Examples.Api.{pgx, uuid_text, parse_uuid, read_token, issuer}

abbrev put_at : String → Option String → (String → Option String) → String → Option String
put_at k v c j = if str_eq j k then v else c j

abbrev shelf : ObjectStore
shelf = record {
  State = String → Option String;
  put = λ name content size content_type c. (ok tt, put_at name (some content) c);
  remove = λ name c. put_at name none c;
}

shelf-IsObjectStore : IsObjectStore shelf
shelf-IsObjectStore = record {
  contents = λ c name. c name;
  put_stores = λ name content size content_type c stored. rw (eq_refl name) refl;
  put_others = λ name content size content_type other c differ. rw differ refl;
  remove_others = λ name other c differ. rw differ refl;
}

abbrev club : Context
club = record { user_id = some 3; roles = some (Role.organizer ∷ []) }

abbrev picture : Image
picture = record { content = "pixels"; size = 6 }

abbrev png : String → String
png content = "image/png"

abbrev no_path : String → Option String
no_path text = none

abbrev someone_elses : String → Option String
someone_elses name = if str_eq name "covers/e9/old.png" then some "theirs" else none

abbrev upload :
    Session → (String → Option String) → Reply String × (Session × (String → Option String))
upload =
    upload_cover_image "http://files/" "img" no_path shelf png pgx uuid_text parse_uuid true club
      "e1" (image picture) 20 90

abbrev stored_url : String
stored_url = "http://files/img/covers/e1/other.png"

post_cover_image-IsPosted_example :
    IsPosted "http://files/" "img" no_path shelf png pgx uuid_text shelf-IsObjectStore read_token
      parse_uuid issuer true "Bearer club" "e1"
      (image picture)
      20
      90
      someone_elses
      stored_url
      open_world
      (post_cover_image "http://files/" "img" no_path shelf png pgx uuid_text read_token parse_uuid
        issuer true "Bearer club" "e1"
        (image picture)
        20
        90
        (calm open_world)
        someone_elses).1
unfolding after_calls after_call create_event create_row update_moderation empty_database statement
    next_fault post_cover_image after_guard auth_middleware authenticate guarded split_space
    parse_access_token effective_roles_from_claims lower_code require_role upload_cover_image
    cover_event after_event checked_image content_type_to_ext after_image after_upload after_row
    without_old remove_other extract_object_name call call_masked translate get_event not_owner
    is_plain_organizer has_role update_cover_image trim_space trim_left trim_right is_space
    trim_slashes strip_prefix after_first
post_cover_image-IsPosted_example =
    post_cover_image-IsPosted "http://files/" "img" no_path shelf png pgx uuid_text
      shelf-IsObjectStore read_token parse_uuid issuer true "Bearer club" "e1" (image picture) 20 90
      someone_elses stored_url (calm open_world) refl

-- An organizer who set the URL of their event to the object of another event has it removed.
abbrev pointing : Database
pointing = record empty_database {
  events = record the_event { cover_image_url = "http://files/img/covers/e9/old.png" } ∷ [];
}

test-removed : (upload (calm pointing) someone_elses).1.1 "covers/e9/old.png" ≡ none
unfolding empty_database statement next_fault upload_cover_image cover_event after_event
    checked_image content_type_to_ext after_image after_upload after_row without_old remove_other
    extract_object_name call call_masked translate get_event not_owner is_plain_organizer has_role
    update_cover_image trim_space trim_left trim_right is_space trim_slashes strip_prefix
    after_first
test-removed = refl
