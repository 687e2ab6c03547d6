-- ===== src/Examples/Redis.antt =====
-- A Redis that keeps what it is told: counters of requests, and cached answers.
use text.Mathlib.TextEquality.{eq_iff}
use text.Mathlib.TextPositions.{eq_refl}
use text.Mathlib.TextLemmas.{cons-append, head-eq_of_cons-eq, tail-eq_of_cons-eq, nil-append}
use Prim.Native.Char.{code}
use senior_project.Common.{
  ℕ, zero, suc, ◌+◌, ◌≤◌, String, Bool, true, false, ◌≡◌, refl, ap, sym, ◌∙◌, ◌⊎◌, Option, none,
  some, [], ◌∷◌, arith, pos, str_eq, if◌then◌else◌, first_where,
}
use senior_project.Errors.{Result, is_ok}
use senior_project.Tables.{Event}
use senior_project.Sql.{Session, calm}
use senior_project.Ticketing.Statements.{event_is}
use senior_project.Events.Listing.{owned_by}
use senior_project.Http.Handlers.{Handler, send}
use senior_project.Http.RateLimit.{
  requests, Counter, Counters, IsCounting, Request, live_of, count_of, ends_of, ending_at, rate_key,
  passes, rate_limited,
}
use senior_project.Http.RateLimit.Laws.{passes-bounded, rate_limited-resumes}
use senior_project.Analytics.Stats.{EventStats}
use senior_project.Analytics.Keys.{cache_key, IsPrefixFree, cache_key-injective}
use senior_project.Analytics.Service.{Redis, IsKeyValue, event_stats}
use senior_project.Analytics.Service.Privacy.{IsPrivate, event_stats-IsPrivate}
use senior_project.Examples.World.{open_world}

abbrev put_at : {A : Type 0} → String → A → (String → Option A) → String → Option A
put_at k v c j = if str_eq j k then some v else c j

abbrev counters : Counters
counters = record {
  State = String → Option Counter;
  entry = λ c k. c k;
  incr = λ k now c. (
    1 + count_of (live_of now (c k)),
    put_at k
        (record { count = 1 + count_of (live_of now (c k)); ends = ends_of (live_of now (c k)) }) c,
  );
  expire = λ k seconds now c j. if str_eq j k then ending_at (now + seconds) (c j) else c j;
  ttl = λ k now c. pos 0;
  lost = λ c. c;
}

counting : IsCounting counters
counting = record {
  incr_reply = λ k now c. refl;
  incr_entry = λ k now c. rw (eq_refl k) refl;
  incr_others = λ k j now c other. rw other refl;
  expire_entry = λ k seconds now c. rw (eq_refl k) refl;
  expire_others = λ k j seconds now c other. rw other refl;
}

abbrev request : ℕ → Request
request at = record {
  forwarded = "";
  remote = "10.0.0.1";
  route = "/events";
  at = at;
  answered = true;
}

abbrev no_host : String → Option String
no_host text = none

abbrev nothing_counted : String → Option Counter
nothing_counted k = none

passes-bounded_example :
    passes counters no_host 2 60
      (rate_key no_host (request 5))
      (request 5 ∷ request 6 ∷ request 7 ∷ [])
      nothing_counted
    ≤ 2
passes-bounded_example =
    passes-bounded counters counting no_host 2 60 (request 5) (request 6 ∷ request 7 ∷ [])
      nothing_counted refl refl refl

abbrev hello : Handler String
hello = send "hello"

-- The window of 60 seconds that began at 5 is over at 65; the limit of 2 was passed in it.
abbrev counted_out : String → Option Counter
counted_out =
    requests counters no_host 2 60 (request 5 ∷ request 6 ∷ request 7 ∷ request 8 ∷ [])
      nothing_counted

rate_limited-resumes_example :
    ((rate_limited counters no_host 2 60 (request 65) hello (calm open_world) counted_out).0
      ≡ (hello (calm open_world)).0)
    × ((rate_limited counters no_host 2 60 (request 65) hello (calm open_world) counted_out).1.0
        ≡ (hello (calm open_world)).1)
unfolding rate_key
rate_limited-resumes_example =
    rate_limited-resumes counters counting no_host 2 60 (request 5) (request 65)
      (request 6 ∷ request 7 ∷ request 8 ∷ []) hello (calm open_world) nothing_counted (omega arith)
      refl refl refl refl (omega arith)

-- A uuid in strokes.
unfoldable strokes : ℕ → String
strokes zero = "."
strokes (suc n) = String.◌∷◌ "1" (strokes n)

strokes-IsPrefixFree : IsPrefixFree strokes
unfolding strokes
strokes-IsPrefixFree zero zero x y h = (
  refl,
  sym (nil-append x)
      ∙ (tail-eq_of_cons-eq (sym (cons-append "." "" x) ∙ (h ∙ cons-append "." "" y))
          ∙ nil-append y),
)
strokes-IsPrefixFree (suc a) (suc b) x y h =
    let (same, rest) = strokes-IsPrefixFree a b x y (
      tail-eq_of_cons-eq
        (sym (cons-append "1" (strokes a) x) ∙ (h ∙ cons-append "1" (strokes b) y))) in
    (ap suc same, rest)
strokes-IsPrefixFree zero (suc b) x y h = absurd (
    omega (
      arith,
      ap code
          (head-eq_of_cons-eq (sym (cons-append "." "" x) ∙ (h ∙ cons-append "1" (strokes b) y))),
    ))
strokes-IsPrefixFree (suc a) zero x y h = absurd (
    omega (
      arith,
      ap code
          (head-eq_of_cons-eq (sym (cons-append "1" (strokes a) x) ∙ (h ∙ cons-append "." "" y))),
    ))

abbrev question : Option ℕ
question = some 1

abbrev organizer : ℕ
organizer = 3

abbrev is_admin : Bool
is_admin = false

abbrev everything : Option ℕ
everything = none

cache_key-injective_example :
    (everything ≡ everything)
    × (is_admin ≡ is_admin)
    × ((organizer ≡ organizer) ⊎ ((is_admin ≡ true) × (everything ≡ none)))
cache_key-injective_example =
    cache_key-injective strokes strokes-IsPrefixFree organizer organizer is_admin is_admin
      everything everything refl

abbrev redis : Redis
redis = record {
  State = String → Option String;
  get = λ k c. (c k, c);
  set = λ k v c. put_at k v c;
  del = λ k c j. if str_eq j k then none else c j;
}

set_keeps :
    (k j v text : String) (c : String → Option String)
    → put_at k v c j ≡ some text
    → ((j ≡ k) × (text ≡ v)) ⊎ (c j ≡ some text)
set_keeps k j v text c h = ground (arith, h, eq_iff j k)

del_keeps :
    (k j text : String) (c : String → Option String)
    → (if str_eq j k then none else c j) ≡ some text
    → c j ≡ some text
del_keeps k j text c h = ground (arith, h)

key_value : IsKeyValue redis
key_value = record {
  contents = λ c k. c k;
  get_reads = λ k text c h. h;
  get_keeps = λ k j text c h. h;
  set_keeps = set_keeps;
  del_keeps = del_keeps;
}

-- The organizers of the events of the open world.
abbrev Organizes : ℕ → ℕ → Type 0
Organizes caller id =
    (e : Event) × (first_where (event_is id) open_world.events ≡ some e)
    × (owned_by caller e.organizer_id ≡ true)

abbrev empty_cache : String → Option String
empty_cache k = none

nothing_kept : (key text : String) → ¬ (empty_cache key ≡ some text)
nothing_kept key text h = ground (arith, h)

abbrev print_stats : EventStats → Option String
print_stats stats = some "{}"

abbrev read_stats : String → Option EventStats
read_stats text = none

abbrev asked : Result EventStats × (Session × (String → Option String))
asked =
    event_stats redis print_stats read_stats strokes 3600 3 is_admin question 90 (calm open_world)
      empty_cache

event_stats-IsPrivate_example :
    IsPrivate Organizes redis key_value print_stats read_stats strokes strokes-IsPrefixFree 3600
      asked.1.1
    × ((id : ℕ) → is_admin ≡ false → question ≡ some id → is_ok asked.0 ≡ true → Organizes 3 id)
unfolding key_value
event_stats-IsPrivate_example =
    event_stats-IsPrivate Organizes redis key_value print_stats read_stats strokes
      strokes-IsPrefixFree 3600 3 90 is_admin question (calm open_world) empty_cache
      (λ caller id e found owned. (e, found, owned))
      (λ caller id text h. absurd (nothing_kept (cache_key strokes caller false (some id)) text h))
