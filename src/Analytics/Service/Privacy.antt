-- ===== src/Analytics/Service/Privacy.antt =====
-- The cache tells an organizer nothing about the events of others.
use senior_project.Common.{
  ℕ, String, Bool, true, false, ◌≡◌, refl, inl, inr, Option, none, some, arith, first_where,
}
use mathlib.Core.Path.{subst}
use senior_project.Errors.{Result, ok, err, is_ok, Result-cases}
use senior_project.Tables.{Database, Event}
use senior_project.Sql.{Session}
use senior_project.Ticketing.Statements.{event_is}
use senior_project.Events.Listing.{owned_by}
use senior_project.Analytics.Stats.{EventStats, repository_stats}
use senior_project.Analytics.Stats.Laws.{event_stats_for_event-IsStatsOf}
use senior_project.Analytics.Keys.{cache_key, IsPrefixFree, event_key_injective}
use senior_project.Analytics.Service.{
  Redis, IsKeyValue, Answer, remember, stored, from_repository, from_entry, after_get, event_stats,
}

-- `Owned caller event` is to hold of every organizer of an event that a session shows.
module _ (Owned : ℕ → ℕ → Type 0) where
  abbrev pub Shows : Database → Type 0
  Shows db =
      (caller id : ℕ) (e : Event)
      → first_where (event_is id) db.events ≡ some e
      → owned_by caller e.organizer_id ≡ true
      → Owned caller id

  module _ (r : Redis) (kv : IsKeyValue r) (encode : EventStats → Option String)
      (decode : String → Option EventStats) (uuid_text : ℕ → String) (free : IsPrefixFree uuid_text)
      (hour : ℕ) where
    -- An entry at the key of an organizer's question about an event is there only if the event is or
    -- was the organizer's.
    abbrev pub IsPrivate : r.State → Type 0
    IsPrivate c =
        (caller id : ℕ) (text : String)
        → kv.contents c (cache_key uuid_text caller false (some id)) ≡ some text
        → Owned caller id

    repository-Owned :
        (caller id now : ℕ) (s : Session) (stats : EventStats)
        → Shows s.db
        → (repository_stats hour uuid_text caller false (some id) now s).0 ≡ ok stats
        → Owned caller id
    unfolding repository_stats
    repository-Owned caller id now s stats shows h =
        let (is, kept) =
          event_stats_for_event-IsStatsOf hour uuid_text id caller false now s stats h in
        shows caller id is.event is.found (is.owned refl)

    set-IsPrivate :
        (caller : ℕ) (is_admin : Bool) (event : Option ℕ) (text : String) (c : r.State)
        → IsPrivate c
        → ((id : ℕ) → is_admin ≡ false → event ≡ some id → Owned caller id)
        → IsPrivate (r.set (cache_key uuid_text caller is_admin event) text c)
    set-IsPrivate caller is_admin event text c p owned other id found h =
        elim (kv.set_keeps (cache_key uuid_text caller is_admin event)
          (cache_key uuid_text other false (some id)) text found c h) [
            | inl (same, is) ↦
                let (asked, by, role) =
                  event_key_injective uuid_text free other caller id false is_admin event same in
                subst (λ who. Owned who id) by (owned id role asked)
            | inr old ↦ p other id found old
          ]

    remember-IsPrivate :
        (caller : ℕ) (is_admin : Bool) (event : Option ℕ) (text : Option String) (c : r.State)
        → IsPrivate c
        → ((id : ℕ) → is_admin ≡ false → event ≡ some id → Owned caller id)
        → IsPrivate (
            remember r encode decode uuid_text hour
              (cache_key uuid_text caller is_admin event)
              text
              c)
    unfolding remember
    remember-IsPrivate caller is_admin event none c p owned = p
    remember-IsPrivate caller is_admin event (some text) c p owned =
        set-IsPrivate caller is_admin event text c p owned

    -- What a call leaves behind and tells.
    abbrev Keeps : ℕ → Bool → Option ℕ → Answer r encode decode uuid_text hour → Type 0
    Keeps caller is_admin event answer =
        IsPrivate answer.1.1
        × ((id : ℕ) → is_admin ≡ false → event ≡ some id → is_ok answer.0 ≡ true → Owned caller id)

    stored-Keeps :
        (caller : ℕ) (is_admin : Bool) (event : Option ℕ) (x : Result EventStats × Session)
        (c : r.State)
        → IsPrivate c
        → ((id : ℕ) → is_admin ≡ false → event ≡ some id → is_ok x.0 ≡ true → Owned caller id)
        → Keeps caller is_admin event
            (stored r encode decode uuid_text hour (cache_key uuid_text caller is_admin event) x c)
    unfolding stored
    stored-Keeps caller is_admin event (err e, s) c p owned = (p, λ id a b h. cc)
    stored-Keeps caller is_admin event (ok stats, s) c p owned = (
      remember-IsPrivate caller is_admin event (encode stats) c p (λ id a b. owned id a b refl),
      owned,
    )

    repository-told :
        (caller now : ℕ) (is_admin : Bool) (event : Option ℕ) (s : Session)
        → Shows s.db
        → (id : ℕ) → is_admin ≡ false
        → event ≡ some id
        → is_ok (repository_stats hour uuid_text caller is_admin event now s).0 ≡ true
        → Owned caller id
    repository-told caller now is_admin event s shows id a b h =
        let told : is_ok (repository_stats hour uuid_text caller false (some id) now s).0 ≡ true =
          subst (λ x. is_ok (repository_stats hour uuid_text caller x (some id) now s).0 ≡ true) a
            (subst (λ x. is_ok (repository_stats hour uuid_text caller is_admin x now s).0 ≡ true) b
              h) in
        elim (Result-cases (repository_stats hour uuid_text caller false (some id) now s).0) [
          | inl e ↦ absurd (ground (arith, told, e))
          | inr (stats, e) ↦ repository-Owned caller id now s stats shows e
        ]

    from_repository-Keeps :
        (caller now : ℕ) (is_admin : Bool) (event : Option ℕ) (s : Session) (c : r.State)
        → Shows s.db
        → IsPrivate c
        → Keeps caller is_admin event
            (from_repository r encode decode uuid_text hour caller is_admin event now s c)
    unfolding from_repository
    from_repository-Keeps caller now is_admin event s c shows p =
        stored-Keeps caller is_admin event _ c p (repository-told caller now is_admin event s shows)

    from_entry-Keeps :
        (caller now : ℕ) (is_admin : Bool) (event : Option ℕ) (s : Session)
        (entry : Option EventStats) (c : r.State)
        → Shows s.db
        → IsPrivate c
        → ((id : ℕ) → is_admin ≡ false → event ≡ some id → Owned caller id)
        → Keeps caller is_admin event
            (from_entry r encode decode uuid_text hour caller is_admin event now s entry c)
    unfolding from_entry
    from_entry-Keeps caller now is_admin event s (some stats) c shows p owned =
        (p, λ id a b h. owned id a b)
    from_entry-Keeps caller now is_admin event s none c shows p owned =
        from_repository-Keeps caller now is_admin event s _ shows
          (λ other id text h. p other id text (kv.del_keeps _ _ text c h))

    after_get-Keeps :
        (caller now : ℕ) (is_admin : Bool) (event : Option ℕ) (s : Session)
        (x : Option String × r.State)
        → Shows s.db
        → IsPrivate x.1
        → ((id : ℕ) (text : String)
            → x.0 ≡ some text
            → is_admin ≡ false
            → event ≡ some id
            → Owned caller id)
        → Keeps caller is_admin event
            (after_get r encode decode uuid_text hour caller is_admin event now s x)
    unfolding after_get
    after_get-Keeps caller now is_admin event s (some text, c) shows p owned =
        from_entry-Keeps caller now is_admin event s (decode text) c shows p
          (λ id. owned id text refl)
    after_get-Keeps caller now is_admin event s (none, c) shows p owned =
        from_repository-Keeps caller now is_admin event s c shows p

    -- A service over any Redis that keeps to its documentation, whatever fails in the database: if the
    -- entries are private before a call, they are after it, and an organizer who is answered about one
    -- event is or was its organizer, whether the answer came from the tables or from the cache.
    pub event_stats-IsPrivate :
        (caller now : ℕ) (is_admin : Bool) (event : Option ℕ) (s : Session) (c : r.State)
        → Shows s.db
        → IsPrivate c
        → let answer = event_stats r encode decode uuid_text hour caller is_admin event now s c in
          IsPrivate answer.1.1
          × ((id : ℕ)
              → is_admin ≡ false
              → event ≡ some id
              → is_ok answer.0 ≡ true
              → Owned caller id)
    unfolding event_stats
    event_stats-IsPrivate caller now is_admin event s c shows p =
        after_get-Keeps caller now is_admin event s _ shows
          (λ other id text h. p other id text (kv.get_keeps _ _ text c h))
          (λ id text h a b. p caller id text (
            subst (λ x. kv.contents c (cache_key uuid_text caller x (some id)) ≡ some text) a
              (subst (λ x. kv.contents c (cache_key uuid_text caller is_admin x) ≡ some text) b
                (kv.get_reads _ text c h))))
