-- ===== src/Events/Covers.antt =====
-- events/handler/handler.go: `UploadCoverImage`, over `minioService` of
-- internal/infra/storage/minio.go, and its route in events/handler/routes.go.
pub mod Checks
pub mod Laws
pub mod Posted
use Prim.Native.String.{◌++◌ as join}
use senior_project.Common.{
  ⊤, ℕ, String, Bool, true, false, not, ltb, ◌==◌, ◌||◌, ◌≡◌, Option, none, some, List, [], ◌∷◌,
  str_eq, trim_space, if◌then◌else◌, is_empty_text, trim_slashes, strip_prefix, after_first,
}
use senior_project.Errors.{Result, ok, err, is_ok}
use senior_project.Tables.{Event}
use senior_project.Sql.{Session}
use senior_project.Auth.Jwt.{Claims, Jwt}
use senior_project.Http.Errors.{Driver, Failure}
use senior_project.Http.Handlers.{
  Handler, Reply, sent, refused, call, call_masked, refuse_if, or_refuse, send, ◌>>=◌, ◌>>◌,
  unauthorized, denied, invalid_id, broken,
}
use senior_project.Http.Guards.{Context, auth_middleware, guarded}
use senior_project.Events.Repository.{get_event, update_cover_image}
use senior_project.Events.Handlers.{not_owner, organizers}

-- The client library's `PutObject` and `RemoveObject`, on one bucket. The error of a removal is never
-- looked at.
pub record ObjectStore : Type 1 where
  pub State : Type 0
  pub put : (name content : String) (size : ℕ) (content_type : String) → State → Result ⊤ × State
  pub remove : (name : String) → State → State

-- What is stored under a name. A put that succeeds stores the content, and neither operation touches
-- another name.
pub record IsObjectStore (r : ObjectStore) : Type 0 where
  pub contents : r.State → String → Option String
  pub put_stores :
      (name content : String) (size : ℕ) (content_type : String) (c : r.State)
      → is_ok (r.put name content size content_type c).0 ≡ true
      → contents (r.put name content size content_type c).1 name ≡ some content
  pub put_others :
      (name content : String) (size : ℕ) (content_type other : String) (c : r.State)
      → str_eq other name ≡ false
      → contents (r.put name content size content_type c).1 other ≡ contents c other
  pub remove_others :
      (name other : String) (c : r.State)
      → str_eq other name ≡ false
      → contents (r.remove name c) other ≡ contents c other

-- The file of the form: its content and the size that the form's header gives.
pub record Image : Type 0 where
  pub content : String
  pub size : ℕ

-- What `ParseMultipartForm` and `FormFile` make of the body.
pub data Form : Type 0 where
  bad_form : Form
  no_image : Form
  image : Image → Form

unfoldable pub content_type_to_ext : String → Option String
content_type_to_ext text =
    if str_eq text "image/jpeg"
    then some ".jpg"
    else if str_eq text "image/png"
    then some ".png"
    else if str_eq text "image/webp"
    then some ".webp"
    else none

abbrev pub invalid_image : String → Failure
invalid_image message = record { status = 400; code = "INVALID_IMAGE"; message = message }

-- `detect` is `http.DetectContentType` of the first 512 bytes.
module _ (detect : String → String) where
  abbrev pub with_ext : Image → Option String → Reply (Image × String)
  with_ext i none = refused (invalid_image "unsupported image type (allowed: jpeg, png, webp)")
  with_ext i (some ext) = sent (i, ext)

  unfoldable pub checked_image : Form → Reply (Image × String)
  unfolding content_type_to_ext
  checked_image bad_form = refused (invalid_image "invalid multipart form")
  checked_image no_image = refused (invalid_image "missing image")
  checked_image (image i) =
      if i.size == 0
      then refused (invalid_image "invalid image size")
      else if ltb 5242880 i.size
      then refused (invalid_image "image too large (max 5MB)")
      else with_ext i (content_type_to_ext (detect i.content))

module _ (d : Driver) (parse_uuid : String → Option ℕ) where
  -- The event and its right caller; `configured` is that there is a store.
  unfoldable pub cover_event : Bool → Context → String → Handler (ℕ × Event)
  unfolding call get_event not_owner
  cover_event configured ctx id_text = do
    refuse_if (not configured) (broken "storage not configured")
    id ← or_refuse (parse_uuid id_text) (invalid_id "invalid event id")
    user ← or_refuse ctx.user_id (unauthorized "missing user id")
    e ← call d (get_event id)
    refuse_if (not_owner ctx user e) (denied "not allowed to modify this event")
    send (id, e)

-- The name of a new object; `new` is its new uuid.
abbrev pub object_name : (ℕ → String) → ℕ → ℕ → String → String
object_name uuid_text event new ext =
    join "covers/" (join (uuid_text event) (join "/" (join (uuid_text new) ext)))

-- `env_url` and `env_bucket` are MINIO_PUBLIC_URL and MINIO_BUCKET.
module _ (env_url env_bucket : String) where
  abbrev pub site : String
  site = trim_slashes (trim_space env_url)

  abbrev pub bucket : String
  bucket = trim_space env_bucket

  -- The URL that `UploadImage` returns.
  abbrev pub url_of : String → String
  url_of name = join (join site (join "/" (join bucket "/"))) name

  abbrev pub after_put : {S : Type 0} → String → Result ⊤ × S → Result String × S
  after_put name (ok done, c) = (ok (url_of name), c)
  after_put name (err e, c) = (err e, c)

  abbrev pub or_nothing : Option String → String
  or_nothing none = ""
  or_nothing (some text) = text

  abbrev pub without_slash : String → String
  without_slash path = elim (strip_prefix "/" path) [ none ↦ path | some rest ↦ rest ]

  abbrev pub in_path : Option String → String
  in_path none = ""
  in_path (some path) = or_nothing (after_first (join bucket "/") (without_slash path))

  -- `parse_path` is the path of `url.Parse`.
  module _ (parse_path : String → Option String) where
    abbrev pub after_prefix : String → Option String → String
    after_prefix text none = in_path (parse_path text)
    after_prefix text (some name) = name

    unfoldable pub extract_object_name : String → String
    unfolding trim_space trim_slashes strip_prefix after_first
    extract_object_name full =
        let text = trim_space full in
        if is_empty_text text
        then ""
        else if is_empty_text site || is_empty_text bucket
        then ""
        else after_prefix text (strip_prefix (join site (join "/" (join bucket "/"))) text)

    module _ (r : ObjectStore) where
      -- An object is removed, where there is one and it is not the new one.
      unfoldable pub remove_other : String → String → r.State → r.State
      remove_other object name c =
          if is_empty_text object then c else if str_eq object name then c else r.remove object c

      unfoldable pub without_old : String → String → r.State → r.State
      unfolding trim_space extract_object_name remove_other
      without_old old name c =
          if is_empty_text (trim_space old)
          then c
          else remove_other (extract_object_name (trim_space old)) name c

      abbrev pub Answer : Type 0
      Answer = Reply String × (Session × r.State)

      unfoldable pub after_row : Event → String → String → Reply ⊤ × Session → r.State → Answer
      unfolding without_old
      after_row e name url (refused f, s) c = (refused f, (s, r.remove name c))
      after_row e name url (sent done, s) c = (sent url, (s, without_old e.cover_image_url name c))

      unfoldable pub after_upload :
          Driver → ℕ → Event → String → ℕ → Result String × r.State → Session → Answer
      unfolding after_row call_masked update_cover_image
      after_upload d id e name db_now (err e', c) s =
          (refused (broken "failed to upload image"), (s, c))
      after_upload d id e name db_now (ok url, c) s =
          after_row e name url
            (call_masked d (broken "failed to update event") (update_cover_image id url db_now) s) c

      module _ (detect : String → String) (d : Driver) (uuid_text : ℕ → String) where
        -- `UploadImage` of the store.
        abbrev pub upload_image : String → Image → r.State → Result String × r.State
        upload_image name i c = after_put name (r.put name i.content i.size (detect i.content) c)

        unfoldable pub after_image :
            ℕ → Event → ℕ → ℕ → Reply (Image × String) → Session → r.State → Answer
        unfolding after_upload
        after_image id e new db_now (refused f) s c = (refused f, (s, c))
        after_image id e new db_now (sent (i, ext)) s c =
            after_upload d id e (object_name uuid_text id new ext) db_now
              (upload_image (object_name uuid_text id new ext) i c) s

        unfoldable pub after_event : Form → ℕ → ℕ → Reply (ℕ × Event) × Session → r.State → Answer
        unfolding checked_image after_image
        after_event form new db_now (refused f, s) c = (refused f, (s, c))
        after_event form new db_now (sent (id, e), s) c =
            after_image id e new db_now (checked_image detect form) s c

        unfoldable pub upload_cover_image :
            (String → Option ℕ)
            → Bool
            → Context
            → String
            → Form
            → ℕ
            → ℕ
            → Session
            → r.State
            → Answer
        unfolding cover_event after_event
        upload_cover_image parse_uuid configured ctx id_text form new db_now s c =
            after_event form new db_now (cover_event d parse_uuid configured ctx id_text s) c

        -- The handler runs where the guards let the request in.
        unfoldable pub after_guard :
            (Context → Session → r.State → Answer) → Reply Context × Session → r.State → Answer
        after_guard next (refused f, s) c = (refused f, (s, c))
        after_guard next (sent ctx, s) c = next ctx s c

        -- POST /events/{id}/cover-image.
        unfoldable pub post_cover_image :
            (String → String → Option Claims)
            → (String → Option ℕ)
            → Jwt
            → Bool
            → String
            → String
            → Form
            → ℕ
            → ℕ
            → Session
            → r.State
            → Answer
        unfolding auth_middleware guarded after_guard upload_cover_image
        post_cover_image parse parse_uuid j configured header id_text form new db_now s c =
            after_guard
              (λ ctx. upload_cover_image parse_uuid configured ctx id_text form new db_now)
              (auth_middleware parse parse_uuid j header (λ ctx. guarded organizers ctx (send ctx))
                s)
              c
