-- ===== src/Events/Covers/Posted.antt =====
-- What a request to upload a cover image has done when it is answered.
use senior_project.Common.{ℕ, String, Bool, false, ◌≡◌, sym, Option}
use mathlib.Core.Path.{subst}
use senior_project.Tables.{Database}
use senior_project.Sql.{Session}
use senior_project.Auth.Roles.{Access, require_role}
use senior_project.Auth.Jwt.{Claims, Jwt}
use senior_project.Http.Errors.{Driver}
use senior_project.Http.Handlers.{Reply, sent, refused, is_sent, send}
use senior_project.Http.Guards.{Context}
use senior_project.Http.Guards.Laws.{IsAuthenticated, route, entry, turned_away, let_in}
use senior_project.Events.Handlers.{organizers}
use senior_project.Events.Ownership.{IsEntitled}
use senior_project.Events.Covers.Checks.{IsCover}
use senior_project.Events.Covers.Laws.{IsStored, upload_cover_image-IsStored}
use senior_project.Events.Covers.{
  ObjectStore, IsObjectStore, Image, Form, Answer, object_name, upload_cover_image, after_guard,
  post_cover_image,
}

module _ (env_url env_bucket : String) (parse_path : String → Option String) (r : ObjectStore)
    (detect : String → String) (d : Driver) (uuid_text : ℕ → String) where
  after_guard-refused :
      (next : Context → Session → r.State → Answer env_url env_bucket parse_path r)
      (x : Reply Context × Session) (c : r.State) (answer : String)
      → is_sent x.0 ≡ false
      → (after_guard env_url env_bucket parse_path r detect d uuid_text next x c).0 ≡ sent answer
      → ⊥
  unfolding after_guard
  after_guard-refused next (refused f, s) c answer h q = cc
  after_guard-refused next (sent ctx, s) c answer h q = cc

  module _ (laws : IsObjectStore r) (parse : String → String → Option Claims)
      (parse_uuid : String → Option ℕ) (j : Jwt) (configured : Bool) (header id_text : String)
      (form : Form) (new db_now : ℕ) (c : r.State) (answer : String) where
    -- The caller is one whom the route lets in and who may change the event, the form has a cover, and
    -- the cover is stored.
    pub record IsPosted (before : Database) (after : Session × r.State) : Type 0 where
      pub who : IsEntitled parse parse_uuid j header id_text before
      pub image : Image
      pub ext : String
      pub cover : IsCover detect form image ext
      pub stored :
          IsStored env_url env_bucket parse_path r laws detect d uuid_text who.id who.event db_now
            before c
            (object_name uuid_text who.id new ext)
            image.content
            answer
            after

    let_in-IsPosted :
        (ctx : Context) (inside : Session)
        → IsAuthenticated parse parse_uuid j header ctx
        → require_role organizers ctx.roles ≡ Access.granted
        → let after =
            upload_cover_image env_url env_bucket parse_path r detect d uuid_text parse_uuid
              configured ctx id_text form new db_now inside c in
          after.0 ≡ sent answer → IsPosted inside.db after.1
    let_in-IsPosted ctx inside caller role h =
        let (id, e, i, ext, named, allowed, cover, stored) =
          upload_cover_image-IsStored env_url env_bucket parse_path r laws detect d uuid_text
            parse_uuid configured ctx id_text form new db_now inside c answer h in
        record {
          who = record {
            ctx = ctx;
            id = id;
            event = e;
            caller = caller;
            role = role;
            named = named;
            allowed = allowed;
          };
          image = i;
          ext = ext;
          cover = cover;
          stored = stored;
        }

    -- POST /events/{id}/cover-image over a store that keeps what it is given, where it is answered,
    -- whatever fails around it: the header has a valid token of an organizer or an admin, the event
    -- that the id names is there, and a caller who is an organizer and no admin is its organizer; the
    -- form has an image of one of the three types with 1 byte to 5 MiB; the answer is the URL of the
    -- new object, the event's row has that URL, the object has the image's content, and no other
    -- object changed but the one that the event's old URL names.
    pub post_cover_image-IsPosted :
        (s : Session)
        → let after =
            post_cover_image env_url env_bucket parse_path r detect d uuid_text parse parse_uuid j
              configured header id_text form new db_now s c in
          after.0 ≡ sent answer → IsPosted s.db after.1
    unfolding post_cover_image after_guard
    post_cover_image-IsPosted s h =
        let next : Context → Session → r.State → Answer env_url env_bucket parse_path r = λ ctx.
          upload_cover_image env_url env_bucket parse_path r detect d uuid_text parse_uuid
            configured ctx id_text form new db_now in
        let after : Reply Context × Session → Answer env_url env_bucket parse_path r =
          λ x. after_guard env_url env_bucket parse_path r detect d uuid_text next x c in
        elim (entry parse parse_uuid j organizers header (λ ctx. send ctx) s) [
          | turned_away a b ↦ absurd (
              after_guard-refused next
                (route parse parse_uuid j organizers header (λ ctx. send ctx) s) c answer a h)
          | let_in ctx inside caller role same runs ↦
              subst (λ x. (after x).0 ≡ sent answer → IsPosted s.db (after x).1) (sym runs)
                (subst
                  (λ db.
                    (after (sent ctx, inside)).0 ≡ sent answer
                    → IsPosted db (after (sent ctx, inside)).1)
                  same (let_in-IsPosted ctx inside caller role))
                h
        ]
