-- ===== src/Events/Listing/Laws.antt =====
-- What a list of events is.
use senior_project.Common.{
  leb, Option, ◌⊎◌, inl, inr, ◌↔◌, Bool-cases, some, none, is_empty_text, trim_space, str_eq, ◌==◌,
  if◌then◌else◌, ℤ, negsuc, zero, ◌-◌, take-drop, row_count-drop, count_where-select_where, ℕ, ◌≤◌,
  String, Bool, true, ◌&&◌, ◌≡◌, refl, ap, List, ◌++◌, arith, select_where, count_where, sort_desc,
  take, drop, row_count, all_where, is_descending, is_descending-sort_desc, all_where-page,
  all_where-sort_desc, all_where-select_where, row_count-take, count_where-sort_desc, ◌∙◌, sym, suc,
  pos,
}
use Prim.Native.Nat.{min}
use Prim.Native.String.{◌++◌ as join}
use text.Mathlib.TextEquality.{eq_iff}
use mathlib.Core.Path.{subst}
use senior_project.Errors.{ok}
use senior_project.Tables.{Event, ModerationStatus}
use senior_project.Sql.{Session}
use senior_project.Sql.Laws.{statement-db}
use senior_project.Events.Listing.{
  moderation_text, owned_by, if_given, if_text, EventFilter, matches, listed, list_events,
  effective_limit, effective_offset,
}

abbrev pub start_of : Event → ℕ
start_of e = e.starts_at

-- The limit and the offset that a request asks for: 20 events where it asks for none, from the first.
abbrev pub asked_limit : ℤ → ℕ
asked_limit (pos n) = if n == 0 then 20 else n
asked_limit (negsuc n) = 20

abbrev pub asked_offset : ℤ → ℕ
asked_offset (pos n) = n
asked_offset (negsuc n) = 0

effective_limit_lem : (limit : ℤ) → effective_limit limit ≡ asked_limit limit
unfolding effective_limit
effective_limit_lem (pos zero) = refl
effective_limit_lem (pos (suc n)) = ground arith
effective_limit_lem (negsuc n) = refl

effective_offset_lem : (offset : ℤ) → effective_offset offset ≡ asked_offset offset
unfolding effective_offset
effective_offset_lem (pos n) = refl
effective_offset_lem (negsuc n) = refl

approved_row :
    (st : ModerationStatus)
    → str_eq (moderation_text st) "approved" ≡ true
    → st ≡ ModerationStatus.approved
approved_row ModerationStatus.approved h = refl
approved_row ModerationStatus.pending h = absurd (ground (arith, h))
approved_row ModerationStatus.rejected h = absurd (ground (arith, h))

both : {a b : Bool} → a ≡ true → b ≡ true → (a && b) ≡ true
both h k = ground (arith, h, k)

if_given-true :
    {A : Type 0} (o : Option A) (test : A → Bool)
    → ((a : A) → o ≡ some a → test a ≡ true)
    → if_given o test ≡ true
if_given-true none test h = refl
if_given-true (some a) test h = h a refl

if_text-true :
    (text : String) (test : String → Bool)
    → (is_empty_text (trim_space text) ≡ true) ⊎ (test (trim_space text) ≡ true)
    → if_text text test ≡ true
if_text-true text test (inl blank) = rw blank refl
if_text-true text test (inr holds) = ground (arith, holds)

module _ (ilike : String → String → Bool) (f : EventFilter) where
  abbrev found : List Event → List Event
  found events = sort_desc start_of (select_where (matches ilike f) events)

  -- What the filter asks of an event, clause by clause.
  pub record IsMatch (e : Event) : Type 0 where
    pub approved :
        f.require_approved_moderation ≡ true → e.moderation_status ≡ ModerationStatus.approved
    pub organizer : (user : ℕ) → f.organizer_id ≡ some user → e.organizer_id ≡ some user
    pub status :
        (text : String)
        → f.moderation_status ≡ some text
        → (is_empty_text (trim_space text) ≡ true)
          ⊎ (moderation_text e.moderation_status ≡ trim_space text)
    pub title :
        (is_empty_text (trim_space f.query) ≡ true)
        ⊎ (ilike e.title (join "%" (join (trim_space f.query) "%")) ≡ true)
    pub not_before : (t : ℕ) → f.starts_after ≡ some t → t ≤ e.starts_at
    pub not_after : (t : ℕ) → f.starts_before ≡ some t → e.starts_at ≤ t

  matches-IsMatch : (e : Event) → matches ilike f e ≡ true → IsMatch e
  unfolding matches
  matches-IsMatch e h = record {
    approved = λ a. approved_row e.moderation_status (ground (arith, h, a));
    organizer = λ user a. ground (arith, h, a);
    status = λ text a. elim (Bool-cases (is_empty_text (trim_space text))) [
      | inl blank ↦ inl blank
      | inr there ↦ inr ((eq_iff _ _).0 (ground (arith, h, a, there)))
    ];
    title = elim (Bool-cases (is_empty_text (trim_space f.query))) [
      | inl blank ↦ inl blank
      | inr there ↦ inr (ground (arith, h, there))
    ];
    not_before = λ t a. ground (arith, h, a);
    not_after = λ t a. ground (arith, h, a);
  }

  IsMatch-matches : (e : Event) → IsMatch e → matches ilike f e ≡ true
  unfolding matches
  IsMatch-matches e m =
      both
        (elim (Bool-cases f.require_approved_moderation) [
          | inl needs ↦
              rw needs (ap (λ st. str_eq (moderation_text st) "approved") (m.approved needs))
          | inr free ↦ rw free refl
        ])
        (both
          (if_given-true f.organizer_id (λ user. owned_by user e.organizer_id)
            (λ user a. ground (arith, m.organizer user a)))
          (both
            (if_given-true f.moderation_status
              (λ text. if_text text (str_eq (moderation_text e.moderation_status)))
              (λ text a.
                if_text-true text (str_eq (moderation_text e.moderation_status))
                  (elim (m.status text a) [
                    | inl blank ↦ inl blank
                    | inr same ↦ inr ((eq_iff _ _).1 same)
                  ])))
            (both (if_text-true f.query (λ text. ilike e.title (join "%" (join text "%"))) m.title)
              (both
                (if_given-true f.starts_after (λ t. leb t e.starts_at)
                  (λ t a. ground (arith, m.not_before t a)))
                (if_given-true f.starts_before (λ t. leb e.starts_at t)
                  (λ t a. ground (arith, m.not_after t a)))))))

  -- A page of events, for a filter over a table: some arrangement of all events that pass the filter,
  -- each as often as in the table, has the latest start first; the page leaves out as many at its
  -- beginning as the offset asks for, and has as many of the others as the limit admits. How events
  -- with the same start are arranged is open.
  pub record IsPage (events items : List Event) : Type 0 where
    pub all : List Event
    pub before : List Event
    pub after : List Event
    pub parted : all ≡ before ++ (items ++ after)
    pub newest_first : is_descending start_of all ≡ true
    pub complete :
        (p : Event → Bool) → count_where p all ≡ count_where (λ e. matches ilike f e && p e) events
    pub skipped : row_count before ≡ min (asked_offset f.offset) (row_count all)
    pub filled : row_count items ≡ min (asked_limit f.limit) (row_count all - asked_offset f.offset)
    pub filtered : all_where (matches ilike f) items ≡ true

  listed-IsPage : (events : List Event) → IsPage events (listed ilike f events)
  unfolding listed
  listed-IsPage events =
      let rows = found events in
      let limit = effective_limit f.limit in
      let offset = effective_offset f.offset in
      let rest = drop offset rows in
      record {
        all = rows;
        before = take offset rows;
        after = drop limit rest;
        parted =
            sym (take-drop offset rows)
            ∙ ap (λ l. take offset rows ++ l) (sym (take-drop limit rest));
        newest_first = is_descending-sort_desc start_of (select_where (matches ilike f) events);
        complete = λ p.
            count_where-sort_desc start_of p (select_where (matches ilike f) events)
            ∙ count_where-select_where (matches ilike f) p events;
        skipped =
            row_count-take offset rows
            ∙ ap (λ n. min n (row_count rows)) (effective_offset_lem f.offset);
        filled =
            row_count-take limit rest
            ∙ (ap (min limit) (row_count-drop offset rows)
                ∙ (ap (λ n. min n (row_count rows - offset)) (effective_limit_lem f.limit)
                    ∙ ap (λ n. min (asked_limit f.limit) (row_count rows - n))
                        (effective_offset_lem f.offset)));
        filtered = all_where-page (matches ilike f) limit offset rows (
            all_where-sort_desc start_of (matches ilike f) (select_where (matches ilike f) events)
              (all_where-select_where (matches ilike f) events));
      }

  pub list_events-ok :
      (s : Session) (items : List Event)
      → (list_events ilike f s).0 ≡ ok items
      → (items ≡ listed ilike f s.db.events) × ((list_events ilike f s).1.db ≡ s.db)
  unfolding list_events
  list_events-ok s items h = ground (arith, h, statement-db s)

  -- A list that is answered changes nothing, and is the page asked for: with the events that pass the
  -- filter arranged in some way with the latest start first, it leaves out as many as the offset asks
  -- for (none below 0) and has as many of the others as the limit admits (20 where no positive one is
  -- given). An event passes the filter exactly when each clause that is given holds of it: approved,
  -- of the organizer, of the moderation status, ILIKE the query between percent signs, and starting
  -- within the two bounds, these included.
  pub list_events-IsPage :
      (s : Session) (items : List Event)
      → (list_events ilike f s).0 ≡ ok items
      → IsPage s.db.events items
        × ((e : Event) → (matches ilike f e ≡ true) ↔ IsMatch e)
        × ((list_events ilike f s).1.db ≡ s.db)
  list_events-IsPage s items h =
      let (same, kept) = list_events-ok s items h in
      (
        subst (IsPage s.db.events) (sym same) (listed-IsPage s.db.events),
        λ e. (matches-IsMatch e, IsMatch-matches e),
        kept,
      )
