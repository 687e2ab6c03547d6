-- ===== src/Admin/Visibility.antt =====
-- What the public sees of an event after a moderation.
use senior_project.Common.{
  ℕ, String, Bool, true, false, not, ◌||◌, ◌≡◌, sym, ◌∙◌, Option, some, List, arith, first_where,
  count_where, update_where, trim_space, all_where, all_where-filter, all_where-first, inl, inr,
  all_where-sort_desc, all_where-page, all_where-update_where, count_where-excluded, select_where,
}
use mathlib.Core.Path.{subst}
use senior_project.Errors.{ok}
use senior_project.Tables.{Event, ModerationStatus}
use senior_project.Sql.{Session}
use senior_project.Sql.Laws.{statement-db}
use senior_project.Http.Errors.{Driver}
use senior_project.Http.Handlers.{sent, is_sent, Reply-cases, call, translate}
use senior_project.Ticketing.Statements.{event_is}
use senior_project.Events.Repository.{get_event, moderated}
use senior_project.Events.Listing.{
  EventFilter, matches, listed, list_events, effective_limit, effective_offset, is_approved_row,
}
use senior_project.Events.Listing.Laws.{start_of, list_events-ok, list_events-IsPage}
use senior_project.Events.Handlers.{handle_get_by_id}
use senior_project.Admin.Service.{moderate_event}
use senior_project.Admin.Moderation.{moderate_event-ok}

abbrev pub hidden_or_other : ℕ → Event → Bool
hidden_or_other id e = not (event_is id e) || not (is_approved_row e)

get_event-ok :
    (d : Driver) (id : ℕ) (s : Session) (e : Event)
    → (call d (get_event id) s).0 ≡ sent e
    → first_where (event_is id) s.db.events ≡ some e
unfolding call translate get_event
get_event-ok d id s e h = ground (arith, statement-db s, h)

listed-hidden :
    (ilike : String → String → Bool) (f : EventFilter) (id : ℕ) (events : List Event)
    → all_where (hidden_or_other id) events ≡ true
    → all_where (hidden_or_other id) (listed ilike f events) ≡ true
unfolding listed
listed-hidden ilike f id events h =
    all_where-page (hidden_or_other id) (effective_limit f.limit) (effective_offset f.offset) _ (
      all_where-sort_desc start_of (hidden_or_other id) (select_where (matches ilike f) events)
        (all_where-filter (hidden_or_other id) (matches ilike f) events h))

matches-approved :
    (ilike : String → String → Bool) (f : EventFilter) (e : Event)
    → f.require_approved_moderation ≡ true
    → matches ilike f e ≡ true
    → is_approved_row e ≡ true
unfolding matches
matches-approved ilike f e needs h = ground (arith, needs, h)

update-hidden :
    (id admin db_now : ℕ) (events : List Event)
    → all_where
        (hidden_or_other id)
        (update_where (event_is id) (moderated ModerationStatus.rejected admin db_now) events)
      ≡ true
update-hidden id admin db_now events =
    all_where-update_where (hidden_or_other id) (event_is id)
      (moderated ModerationStatus.rejected admin db_now) events (λ e h. ground (arith, h))
      (λ e h. ground (arith, h))

list-hidden :
    (ilike : String → String → Bool) (f : EventFilter) (id : ℕ) (s : Session) (items : List Event)
    → all_where (hidden_or_other id) s.db.events ≡ true
    → f.require_approved_moderation ≡ true
    → (list_events ilike f s).0 ≡ ok items
    → count_where (event_is id) items ≡ 0
list-hidden ilike f id s items h needs answered =
    let (same, kept) = list_events-ok ilike f s items answered in
    let (found, exact, again) = list_events-IsPage ilike f s items answered in
    let others : all_where (hidden_or_other id) items ≡ true =
      rw same (listed-hidden ilike f id s.db.events h) in
    count_where-excluded (hidden_or_other id) (matches ilike f) (event_is id) items others
      found.filtered (λ e a b. ground (arith, a, matches-approved ilike f e needs b))

get-hidden :
    (d : Driver) (uuid_text : ℕ → String) (parse_uuid : String → Option ℕ) (id_text : String)
    (id : ℕ) (s : Session)
    → all_where (hidden_or_other id) s.db.events ≡ true
    → parse_uuid id_text ≡ some id
    → is_sent (handle_get_by_id d uuid_text parse_uuid id_text s).0 ≡ false
unfolding handle_get_by_id
get-hidden d uuid_text parse_uuid id_text id s h parsed =
    elim (Reply-cases (call d (get_event id) s).0) [
      | inl a ↦ ground (arith, parsed, a)
      | inr (e, a) ↦
          let found = get_event-ok d id s e a in
          let hidden = all_where-first (hidden_or_other id) (event_is id) s.db.events e h found in
          ground (arith, parsed, a, hidden)
    ]

-- A moderation that is answered with `rejected`, whatever failed around it, hides the event: at every
-- later session with the same events, under any faults, no list of approved events contains it, and
-- the public read of it is refused.
pub moderate_event-hides :
    (uuid_text : ℕ → String) (parse_uuid : String → Option ℕ) (quote : String → String) (admin : ℕ)
    (event_text action reason : String) (log note now db_now : ℕ) (s : Session)
    → let answer =
        moderate_event uuid_text parse_uuid quote admin event_text action reason log note now db_now
          s in
      answer.0 ≡ ok ModerationStatus.rejected
      → (id : ℕ) × (parse_uuid (trim_space event_text) ≡ some id)
        × ((later : Session)
            → later.db.events ≡ answer.1.db.events
            → ((ilike : String → String → Bool) (f : EventFilter) (items : List Event)
                → f.require_approved_moderation ≡ true
                → (list_events ilike f later).0 ≡ ok items
                → count_where (event_is id) items ≡ 0)
              × ((d : Driver) (id_text : String)
                  → parse_uuid id_text ≡ some id
                  → is_sent (handle_get_by_id d uuid_text parse_uuid id_text later).0 ≡ false))
moderate_event-hides uuid_text parse_uuid quote admin event_text action reason log note now db_now s
      h =
    let (id, e, parsed, asked, found, events) =
      moderate_event-ok uuid_text parse_uuid quote admin event_text action reason log note now
        db_now s ModerationStatus.rejected h in
    (
      id,
      parsed,
      λ later same.
          let hidden : all_where (hidden_or_other id) later.db.events ≡ true =
            subst (λ l. all_where (hidden_or_other id) l ≡ true) (sym (same ∙ events))
              (update-hidden id admin db_now s.db.events) in
          (
            λ ilike f items needs. list-hidden ilike f id later items hidden needs,
            λ d id_text. get-hidden d uuid_text parse_uuid id_text id later hidden,
          ),
    )
