-- ===== src/Events/Covers/Laws.antt =====
-- What an upload of a cover image has done when it is answered.
use senior_project.Common.{
  ⊤, ℕ, String, Bool, true, false, ◌≡◌, refl, ap, sym, ◌∙◌, ◌⊎◌, inl, inr, Bool-cases, Option, some,
  arith, update_where, str_eq, trim_space, is_empty_text,
}
use mathlib.Core.Path.{subst}
use text.Mathlib.TextEquality.{eq_iff}
use text.Mathlib.TextPositions.{eq_refl}
use senior_project.Errors.{Result, ok, err}
use senior_project.Tables.{Database, Event}
use senior_project.Sql.{Session}
use senior_project.Http.Errors.{Driver}
use senior_project.Http.Handlers.{Reply, sent, refused, is_sent, call_masked, broken}
use senior_project.Http.Guards.{Context}
use senior_project.Ticketing.Statements.{event_is}
use senior_project.Events.Repository.{update_cover_image, with_cover}
use senior_project.Events.Ownership.{IsAllowed}
use senior_project.Events.Covers.Checks.{
  IsCover, checked_image-IsCover, update_cover_image-ok, cover_event-IsAllowed, after_put-ok,
}
use senior_project.Events.Covers.{
  ObjectStore, IsObjectStore, Image, Form, checked_image, url_of, extract_object_name, cover_event,
  object_name, remove_other, without_old, after_row, after_upload, after_image, after_event,
  upload_image, upload_cover_image,
}

module _ (env_url env_bucket : String) (parse_path : String → Option String) (r : ObjectStore)
    (laws : IsObjectStore r) where
  -- The removal of an object spares the new one, and every other.
  remove_other-keeps :
      (object name other : String) (c : r.State)
      → (str_eq other name ≡ true) ⊎ (str_eq other object ≡ false)
      → laws.contents (remove_other env_url env_bucket parse_path r object name c) other
        ≡ laws.contents c other
  unfolding remove_other
  remove_other-keeps object name other c apart = elim (Bool-cases (str_eq other object)) [
    | inl same ↦
        ground (arith, same, apart, eq_iff other object, eq_iff other name, eq_iff object name)
    | inr differ ↦ ground (arith, laws.remove_others object other c differ)
  ]

  without_old-keeps :
      (old name other : String) (c : r.State)
      → (str_eq other name ≡ true)
        ⊎ (str_eq other (extract_object_name env_url env_bucket parse_path (trim_space old))
            ≡ false)
      → laws.contents (without_old env_url env_bucket parse_path r old name c) other
        ≡ laws.contents c other
  unfolding without_old
  without_old-keeps old name other c apart =
      let kept =
        remove_other-keeps (extract_object_name env_url env_bucket parse_path (trim_space old)) name
          other c apart in
      elim (Bool-cases (is_empty_text (trim_space old))) [
        | inl none_there ↦ rw none_there refl
        | inr there ↦ rw there kept
      ]

  -- The steps behind the checks, in the order of the code: the row, the upload, the image, the event.
  after_row-ok :
      (e : Event) (name url : String) (x : Reply ⊤ × Session) (c : r.State) (answer : String)
      → let after = after_row env_url env_bucket parse_path r e name url x c in
        after.0 ≡ sent answer
        → (is_sent x.0 ≡ true)
          × (answer ≡ url)
          × (after.1.0 ≡ x.1)
          × (after.1.1 ≡ without_old env_url env_bucket parse_path r e.cover_image_url name c)
  unfolding after_row
  after_row-ok e name url (refused f, s) c answer h = cc
  after_row-ok e name url (sent done, s) c answer h = (refl, ground (arith, h), refl, refl)

  module _ (detect : String → String) (d : Driver) (uuid_text : ℕ → String) (id : ℕ) (e : Event)
      (db_now : ℕ) where
    -- The answer is the URL of the new object, the event's row has it, the object has the image's
    -- content, and no other object changed but the one that the old URL names.
    pub record IsStored (before : Database) (c : r.State) (name content answer : String)
        (after : Session × r.State) : Type 0 where
      pub url : answer ≡ url_of env_url env_bucket name
      pub row :
          after.0.db.events ≡ update_where (event_is id) (with_cover answer db_now) before.events
      pub kept : laws.contents after.1 name ≡ some content
      pub others :
          (other : String)
          → str_eq other name ≡ false
          → str_eq other
              (extract_object_name env_url env_bucket parse_path (trim_space e.cover_image_url))
            ≡ false
          → laws.contents after.1 other ≡ laws.contents c other

    after_upload-ok :
        (name : String) (x : Result String × r.State) (s : Session) (answer : String)
        → let after = after_upload env_url env_bucket parse_path r d id e name db_now x s in
          after.0 ≡ sent answer
          → (x.0 ≡ ok answer)
            × (after.1.0.db.events
                ≡ update_where (event_is id) (with_cover answer db_now) s.db.events)
            × (after.1.1 ≡ without_old env_url env_bucket parse_path r e.cover_image_url name x.1)
    unfolding after_upload
    after_upload-ok name (err f, c) s answer h = cc
    after_upload-ok name (ok url, c) s answer h =
        let (fine, same, session, store) =
          after_row-ok e name url
            (call_masked d (broken "failed to update event") (update_cover_image id url db_now) s) c
            answer h in
        (
          ap ok (sym same),
          ap (λ x. x.db.events) session
              ∙ (update_cover_image-ok d id url db_now s fine
                  ∙ ap (λ u. update_where (event_is id) (with_cover u db_now) s.db.events)
                      (sym same)),
          store,
        )

    after_image-IsStored :
        (new : ℕ) (i : Image) (ext : String) (s : Session) (c : r.State) (answer : String)
        → let after =
            after_image env_url env_bucket parse_path r detect d uuid_text id e new db_now
              (sent (i, ext))
              s
              c in
          after.0 ≡ sent answer
          → IsStored s.db c (object_name uuid_text id new ext) i.content answer after.1
    unfolding after_image
    after_image-IsStored new i ext s c answer h =
        let name = object_name uuid_text id new ext in
        let content_type = detect i.content in
        let put = r.put name i.content i.size content_type c in
        let (uploaded, row, store) =
          after_upload-ok name
            (upload_image env_url env_bucket parse_path r detect d uuid_text name i c) s answer h in
        let (stored, url, same) = after_put-ok env_url env_bucket name answer put uploaded in
        let cleaned : (after_image env_url env_bucket parse_path r detect d uuid_text id e new
              db_now (sent (i, ext)) s c).1.1
            ≡ without_old env_url env_bucket parse_path r e.cover_image_url name put.1 =
          store ∙ ap (without_old env_url env_bucket parse_path r e.cover_image_url name) same in
        record {
          url = url;
          row = row;
          kept =
              ap (λ x. laws.contents x name) cleaned
              ∙ (without_old-keeps e.cover_image_url name name put.1 (inl (eq_refl name))
                  ∙ laws.put_stores name i.content i.size content_type c stored);
          others = λ other new_one old_one.
              ap (λ x. laws.contents x other) cleaned
              ∙ (without_old-keeps e.cover_image_url name other put.1 (inr old_one)
                  ∙ laws.put_others name i.content i.size content_type other c new_one);
        }

  module _ (detect : String → String) (d : Driver) (uuid_text : ℕ → String) (new db_now : ℕ)
      (c : r.State) (answer : String) where
    after_image-ok :
        (id : ℕ) (e : Event) (y : Reply (Image × String)) (s : Session)
        → let after =
            after_image env_url env_bucket parse_path r detect d uuid_text id e new db_now y s c in
          after.0 ≡ sent answer
          → (i : Image) × (ext : String) × (y ≡ sent (i, ext))
            × IsStored detect d uuid_text id e db_now s.db c
                (object_name uuid_text id new ext)
                i.content
                answer
                after.1
    unfolding after_image
    after_image-ok id e (refused f) s h = cc
    after_image-ok id e (sent (i, ext)) s h =
        (i, ext, refl, after_image-IsStored detect d uuid_text id e db_now new i ext s c answer h)

    after_event-ok :
        (form : Form) (x : Reply (ℕ × Event) × Session)
        → let after =
            after_event env_url env_bucket parse_path r detect d uuid_text form new db_now x c in
          after.0 ≡ sent answer
          → (id : ℕ) × (e : Event) × (i : Image) × (ext : String) × (x.0 ≡ sent (id, e))
            × IsCover detect form i ext
            × IsStored detect d uuid_text id e db_now x.1.db c
                (object_name uuid_text id new ext)
                i.content
                answer
                after.1
    unfolding after_event
    after_event-ok form (refused f, s) h = cc
    after_event-ok form (sent (id, e), s) h =
        let (i, ext, is, stored) = after_image-ok id e (checked_image detect form) s h in
        (id, e, i, ext, refl, checked_image-IsCover detect form i ext is, stored)

  -- An upload of a cover that is answered, whatever fails around it: the caller may change the event
  -- that the id names, the form has an image of one of the three types with 1 byte to 5 MiB, the
  -- answer is the URL of the new object, the event's row has that URL, the object has the image's
  -- content, and no other object changed but the one that the event's old URL names.
  pub upload_cover_image-IsStored :
      (detect : String → String) (d : Driver) (uuid_text : ℕ → String)
      (parse_uuid : String → Option ℕ) (configured : Bool) (ctx : Context) (id_text : String)
      (form : Form) (new db_now : ℕ) (s : Session) (c : r.State) (answer : String)
      → let after =
          upload_cover_image env_url env_bucket parse_path r detect d uuid_text parse_uuid
            configured ctx id_text form new db_now s c in
        after.0 ≡ sent answer
        → (id : ℕ) × (e : Event) × (i : Image) × (ext : String) × (parse_uuid id_text ≡ some id)
          × IsAllowed s.db ctx id e
          × IsCover detect form i ext
          × IsStored detect d uuid_text id e db_now s.db c
              (object_name uuid_text id new ext)
              i.content
              answer
              after.1
  unfolding upload_cover_image
  upload_cover_image-IsStored detect d uuid_text parse_uuid configured ctx id_text form new db_now s
        c answer h =
      let found = cover_event d parse_uuid configured ctx id_text s in
      let (id, e, i, ext, at, cover, stored) =
        after_event-ok detect d uuid_text new db_now c answer form found h in
      let (named, allowed, same) =
        cover_event-IsAllowed d parse_uuid configured ctx id_text s id e at in
      (
        id,
        e,
        i,
        ext,
        named,
        allowed,
        cover,
        subst
            (λ db.
              IsStored detect d uuid_text id e db_now db c (object_name uuid_text id new ext)
                i.content answer
                (upload_cover_image env_url env_bucket parse_path r detect d uuid_text parse_uuid
                  configured ctx id_text form new db_now s c).1)
            same stored,
      )
