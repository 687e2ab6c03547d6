-- ===== src/Events/Covers/Checks.antt =====
-- The checks before an upload, and the statement and the put that it rests on.
use senior_project.Common.{
  ⊤, ℕ, ◌≤◌, String, Bool, true, ◌≡◌, refl, ap, sym, ◌∙◌, inl, inr, Option-cases, Option, some,
  arith, first_where, update_where,
}
use mathlib.Core.Path.{subst}
use senior_project.Errors.{ok_injective, Result, ok, err, is_ok}
use senior_project.Tables.{Event}
use senior_project.Sql.{Session}
use senior_project.Sql.Laws.{statement-db}
use senior_project.Http.Errors.{Driver}
use senior_project.Http.Handlers.{sent, is_sent, Reply-cases, call, call_masked, translate, broken}
use senior_project.Http.Guards.{Context}
use senior_project.Ticketing.Statements.{event_is}
use senior_project.Events.Repository.{get_event, update_cover_image, with_cover}
use senior_project.Events.Listing.{owned_by}
use senior_project.Events.Handlers.{not_owner}
use senior_project.Events.Ownership.{IsAllowed, get_event-ok}
use senior_project.Events.Covers.{
  Image, Form, image, checked_image, content_type_to_ext, url_of, cover_event, after_put,
}

-- The form has an image of one of the three types, of 1 byte to 5 MiB.
pub record IsCover (detect : String → String) (form : Form) (i : Image) (ext : String)
    : Type 0 where
  pub is : form ≡ image i
  pub some_bytes : 1 ≤ i.size
  pub few_bytes : i.size ≤ 5242880
  pub kind : content_type_to_ext (detect i.content) ≡ some ext

pub checked_image-IsCover :
    (detect : String → String) (form : Form) (i : Image) (ext : String)
    → checked_image detect form ≡ sent (i, ext)
    → IsCover detect form i ext
unfolding checked_image
checked_image-IsCover detect Form.bad_form i ext h = cc
checked_image-IsCover detect Form.no_image i ext h = cc
checked_image-IsCover detect (image j) i ext h =
    elim (Option-cases (content_type_to_ext (detect j.content))) [
      | inl a ↦ absurd (ground (arith, a, h))
      | inr (k, a) ↦
          let same : j ≡ i = ground (arith, a, h) in
          subst (λ x. IsCover detect (image j) x ext) same
            (record {
              is = refl;
              some_bytes = ground (arith, a, h);
              few_bytes = ground (arith, a, h);
              kind = ground (arith, a, h);
            })
    ]

pub update_cover_image-ok :
    (d : Driver) (id : ℕ) (url : String) (db_now : ℕ) (s : Session)
    → let answer =
        call_masked d (broken "failed to update event") (update_cover_image id url db_now) s in
      is_sent answer.0 ≡ true
      → answer.1.db.events ≡ update_where (event_is id) (with_cover url db_now) s.db.events
unfolding call_masked translate update_cover_image
update_cover_image-ok d id url db_now s h = ground (arith, statement-db s, h)

module _ (d : Driver) (parse_uuid : String → Option ℕ) where
  pub cover_event-IsAllowed :
      (configured : Bool) (ctx : Context) (id_text : String) (s : Session) (id : ℕ) (e : Event)
      → (cover_event d parse_uuid configured ctx id_text s).0 ≡ sent (id, e)
      → (parse_uuid id_text ≡ some id)
        × IsAllowed s.db ctx id e
        × ((cover_event d parse_uuid configured ctx id_text s).1.db ≡ s.db)
  unfolding cover_event not_owner
  cover_event-IsAllowed configured ctx id_text s id e h = elim (Option-cases (parse_uuid id_text)) [
    | inl p ↦ absurd (ground (arith, p, h))
    | inr (k, p) ↦ elim (Option-cases ctx.user_id) [
      | inl g ↦ absurd (ground (arith, p, g, h))
      | inr (user, g) ↦
          let got = get_event-ok d parse_uuid ctx id_text "" k s in
          elim (Reply-cases (call d (get_event k) s).0) [
            | inl q ↦ absurd (ground (arith, p, g, q, h))
            | inr (row, q) ↦
                let (same, one) : (k ≡ id) × (row ≡ e) =
                  (ground (arith, p, g, q, h), ground (arith, p, g, q, h)) in
                let found : first_where (event_is k) s.db.events ≡ some row = got.1 row q in
                (
                  p ∙ ap some same,
                  record {
                    user = user;
                    known = g;
                    found =
                        subst (λ n. first_where (event_is n) s.db.events ≡ some e) same
                          (found ∙ ap some one);
                    owned = λ plain.
                        subst (λ x. owned_by user x.organizer_id ≡ true) one
                          (ground (arith, p, g, q, h, plain));
                  },
                  ground (arith, p, g, q, h, got.0),
                )
          ]
    ]
  ]

pub after_put-ok :
    {S : Type 0} (env_url env_bucket name url : String) (x : Result ⊤ × S)
    → (after_put env_url env_bucket name x).0 ≡ ok url
    → (is_ok x.0 ≡ true)
      × (url ≡ url_of env_url env_bucket name)
      × ((after_put env_url env_bucket name x).1 ≡ x.1)
after_put-ok env_url env_bucket name url (ok done, c) h = (refl, ok_injective (sym h), refl)
after_put-ok env_url env_bucket name url (err e, c) h = cc
