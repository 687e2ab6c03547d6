-- ===== src/Http/RateLimit.antt =====
-- internal/infra/rate_limit/limiter.go: the counter of requests by client and route.
pub mod Laws
use Prim.Native.Char.{code}
use Prim.Native.String.{◌++◌ as join}
use senior_project.Common.{
  ⊤, ℕ, ◌+◌, String, Bool, true, false, leb, ltb, ◌==◌, ◌≡◌, ◌≢◌, Option, none, some, List, [], ◌∷◌,
  ℤ, pos, negsuc, bit, if◌then◌else◌, trim_space, is_empty_text, str_eq,
}
use senior_project.Sql.{Session}
use senior_project.Http.Errors.{Failure}
use senior_project.Http.Handlers.{Reply, sent, refused, Handler}

-- What Redis holds at a key: the number, and the instant at which the key ends.
pub record Counter : Type 0 where
  pub count : ℕ
  pub ends : Option ℕ

abbrev pub has_ended : ℕ → Counter → Bool
has_ended now e = elim e.ends [ none ↦ false | some t ↦ leb t now ]

abbrev pub live_of : ℕ → Option Counter → Option Counter
live_of now none = none
live_of now (some e) = if has_ended now e then none else some e

abbrev pub count_of : Option Counter → ℕ
count_of none = 0
count_of (some e) = e.count

abbrev pub ends_of : Option Counter → Option ℕ
ends_of none = none
ends_of (some e) = e.ends

abbrev pub ending_at : ℕ → Option Counter → Option Counter
ending_at t none = none
ending_at t (some e) = some (record e { ends = some t })

-- The commands that the limiter sends, at an instant. `lost` is what a script that is not answered
-- leaves behind.
pub record Counters : Type 1 where
  pub State : Type 0
  pub entry : State → String → Option Counter
  pub incr : String → ℕ → State → ℕ × State
  pub expire : String → ℕ → ℕ → State → State
  pub ttl : String → ℕ → State → ℤ
  pub lost : State → State

-- What Redis documents of INCR and EXPIRE: a key that is missing or has ended counts from 0, INCR
-- leaves the end as it is, and neither touches another key.
pub record IsCounting (r : Counters) : Type 0 where
  pub incr_reply :
      (k : String) (now : ℕ) (c : r.State)
      → (r.incr k now c).0 ≡ 1 + count_of (live_of now (r.entry c k))
  pub incr_entry :
      (k : String) (now : ℕ) (c : r.State)
      → r.entry (r.incr k now c).1 k
        ≡ some (record {
          count = 1 + count_of (live_of now (r.entry c k));
          ends = ends_of (live_of now (r.entry c k));
        })
  pub incr_others :
      (k j : String) (now : ℕ) (c : r.State)
      → str_eq j k ≡ false
      → r.entry (r.incr k now c).1 j ≡ r.entry c j
  pub expire_entry :
      (k : String) (seconds now : ℕ) (c : r.State)
      → r.entry (r.expire k seconds now c) k ≡ ending_at (now + seconds) (r.entry c k)
  pub expire_others :
      (k j : String) (seconds now : ℕ) (c : r.State)
      → str_eq j k ≡ false
      → r.entry (r.expire k seconds now c) j ≡ r.entry c j

-- `strings.Split(text, ",")`: the text before the first comma, and the parts after it.
unfoldable pub split_commas : String → String × List String
split_commas String.[] = ("", [])
split_commas (String.◌∷◌ c s) =
    let (part, rest) = split_commas s in
    if code c == 44 then ("", part ∷ rest) else (String.◌∷◌ c part, rest)

-- The loop over the parts: the first that is not blank.
unfoldable pub first_address : List String → Option String
unfolding trim_space
first_address [] = none
first_address (part ∷ rest) =
    let later = first_address rest in
    if is_empty_text (trim_space part) then later else some (trim_space part)

-- `host` is what `net.SplitHostPort` finds in the remote address.
unfoldable pub client_ip : (String → Option String) → String → String → String
unfolding split_commas first_address
client_ip host forwarded remote =
    let direct : String = elim (host remote) [ none ↦ remote | some h ↦ h ] in
    if is_empty_text forwarded
    then direct
    else elim (first_address ((split_commas forwarded).0 ∷ (split_commas forwarded).1)) [
      | none ↦ direct
      | some ip ↦ ip
    ]

-- The parts of a request that the limiter reads. `answered` is whether Redis answers the script.
pub record Request : Type 0 where
  pub forwarded : String
  pub remote : String
  pub route : String
  pub at : ℕ
  pub answered : Bool

unfoldable pub rate_key : (String → Option String) → Request → String
unfolding client_ip
rate_key host q =
    let ip = client_ip host q.forwarded q.remote in
    join "rate:" (join (if is_empty_text ip then "unknown" else ip) (join ":" (join q.route ":v1")))

pub data Verdict : Type 0 where
  passed : Verdict
  too_many : ℕ → Verdict

abbrev pub is_passed : Verdict → Bool
is_passed Verdict.passed = true
is_passed (Verdict.too_many retry) = false

-- The seconds of the header Retry-After.
abbrev pub retry_after : ℤ → ℕ
retry_after (pos n) = n
retry_after (negsuc n) = 0

module _ (r : Counters) (host : String → Option String) (limit window : ℕ) where
  -- The Lua script.
  unfoldable pub run_script : String → ℕ → r.State → ℕ × r.State
  run_script key now c =
      let (current, c1) = r.incr key now c in
      (current, if current == 1 then r.expire key window now c1 else c1)

  unfoldable pub verdict : String → ℕ → ℕ × r.State → Verdict × r.State
  verdict key now (current, c) = (
    if ltb limit current then Verdict.too_many (retry_after (r.ttl key now c)) else Verdict.passed,
    c,
  )

  unfoldable pub admit : Request → r.State → Verdict × r.State
  unfolding run_script verdict rate_key
  admit q c =
      if q.answered
      then verdict (rate_key host q) q.at (run_script (rate_key host q) q.at c)
      else (Verdict.passed, r.lost c)

  abbrev pub too_many_requests : Failure
  too_many_requests = record { status = 429; code = "RATE_LIMITED"; message = "too many requests" }

  -- The next handler, or 429.
  unfoldable pub after_verdict :
      {A : Type 0} → Handler A → Session → Verdict × r.State → Reply A × (Session × r.State)
  after_verdict next s (Verdict.passed, c) = let (reply, s') = next s in (reply, (s', c))
  after_verdict next s (Verdict.too_many retry, c) = (refused too_many_requests, (s, c))

  unfoldable pub rate_limited :
      {A : Type 0} → Request → Handler A → Session → r.State → Reply A × (Session × r.State)
  unfolding admit after_verdict
  rate_limited q next s c = after_verdict next s (admit q c)

  -- A run of requests, one after the other as Redis takes them.
  unfoldable pub requests : List Request → r.State → r.State
  unfolding admit
  requests [] c = c
  requests (q ∷ qs) c = requests qs (admit q c).1

  -- How many requests of a key are let through in a run.
  unfoldable pub passes : String → List Request → r.State → ℕ
  unfolding admit
  passes k [] c = 0
  passes k (q ∷ qs) c =
      let here = bit (if str_eq k (rate_key host q) then is_passed (admit q c).0 else false) in
      here + passes k qs (admit q c).1
