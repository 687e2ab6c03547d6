-- ===== src/Http/RateLimit/Laws.antt =====
-- How many requests a window lets through.
use text.Mathlib.TextEquality.{eq_iff}
use text.Mathlib.TextPositions.{eq_refl}
use senior_project.Common.{
  ℕ, ◌+◌, ◌-◌, ◌≤◌, ◌<◌, String, Bool, true, false, not, ltb, ◌&&◌, ◌≡◌, refl, ap, sym, ◌∙◌, Option,
  none, some, List, [], ◌∷◌, arith, str_eq, Bool-cases, inl, inr, all_where,
}
use mathlib.Core.Path.{subst}
use senior_project.Sql.{Session}
use senior_project.Http.Handlers.{Handler}
use senior_project.Http.RateLimit.{
  Counters, IsCounting, Request, live_of, count_of, ends_of, ending_at, run_script, verdict, admit,
  rate_key, is_passed, passes, requests, Verdict, after_verdict, rate_limited,
}

module _ (r : Counters) (counting : IsCounting r) (host : String → Option String)
    (limit window : ℕ) where
  -- A key that counts `n` in a window that ends at `t`.
  abbrev pub Counts : r.State → String → ℕ → ℕ → Type 0
  Counts c k n t = r.entry c k ≡ some (record { count = n; ends = some t })

  -- Answered, and before the end of the window.
  abbrev pub in_window : ℕ → Request → Bool
  in_window t q = q.answered && ltb q.at t

  script-Counts :
      (c : r.State) (k : String) (n t now : ℕ)
      → Counts c k (1 + n) t
      → now < t
      → ((run_script r host limit window k now c).0 ≡ 2 + n)
        × Counts (run_script r host limit window k now c).1 k (2 + n) t
  unfolding run_script
  script-Counts c k n t now h early =
      let reply = counting.incr_reply k now c in
      let after = counting.incr_entry k now c in
      let live : live_of now (r.entry c k) ≡ some (record { count = 1 + n; ends = some t }) =
        rw h (ground (arith, early)) in
      let counted : (r.incr k now c).0 ≡ 2 + n =
        omega (arith, reply ∙ ap (λ o. 1 + count_of o) live) in
      let kept : r.entry (r.incr k now c).1 k
          ≡ some (record { count = 1 + (1 + n); ends = some t }) =
        after ∙ ap (λ o. some (record { count = 1 + count_of o; ends = ends_of o })) live in
      let sum : 1 + (1 + n) ≡ 2 + n = omega arith in (counted, ground (arith, counted, kept, sum))

  script-others :
      (c : r.State) (k j : String) (now : ℕ)
      → str_eq j k ≡ false
      → r.entry (run_script r host limit window k now c).1 j ≡ r.entry c j
  unfolding run_script
  script-others c k j now other =
      let a = counting.incr_others k j now c other in
      let b = counting.expire_others k j window now (r.incr k now c).1 other in ground (arith, a, b)

  -- A request of the key in a window that has begun.
  admit-Counts :
      (q : Request) (c : r.State) (n t : ℕ)
      → Counts c (rate_key host q) (1 + n) t
      → in_window t q ≡ true
      → (is_passed (admit r host limit window q c).0 ≡ not (ltb limit (2 + n)))
        × Counts (admit r host limit window q c).1 (rate_key host q) (2 + n) t
  unfolding admit verdict
  admit-Counts q c n t h inside =
      let early : q.at < t = ground (arith, inside) in
      let (counted, after) = script-Counts c (rate_key host q) n t q.at h early in
      (ground (arith, inside, counted), ground (arith, inside, after))

  admit-others :
      (q : Request) (c : r.State) (k : String) (t : ℕ)
      → str_eq k (rate_key host q) ≡ false
      → in_window t q ≡ true
      → r.entry (admit r host limit window q c).1 k ≡ r.entry c k
  unfolding admit verdict
  admit-others q c k t other inside =
      let kept = script-others c (rate_key host q) k q.at other in ground (arith, inside, kept)

  passes-le :
      (k : String) (qs : List Request) (c : r.State) (n t : ℕ)
      → Counts c k (1 + n) t
      → all_where (in_window t) qs ≡ true
      → passes r host limit window k qs c ≤ limit - (1 + n)
  unfolding passes
  passes-le k [] c n t h inside = omega arith
  passes-le k (q ∷ qs) c n t h inside =
      let here : in_window t q ≡ true = ground (arith, inside) in
      let there : all_where (in_window t) qs ≡ true = ground (arith, inside) in
      elim (Bool-cases (str_eq k (rate_key host q))) [
        | inl same ↦
            let is : k ≡ rate_key host q = (eq_iff k (rate_key host q)).0 same in
            let (answer, after) =
              admit-Counts q c n t (subst (λ j. Counts c j (1 + n) t) is h) here in
            let sum : 2 + n ≡ 1 + (1 + n) = omega arith in
            let next : Counts (admit r host limit window q c).1 k (1 + (1 + n)) t =
              subst (λ m. Counts (admit r host limit window q c).1 k m t) sum
                (subst (λ j. Counts (admit r host limit window q c).1 j (2 + n) t) (sym is)
                  after) in
            let rest = passes-le k qs (admit r host limit window q c).1 (1 + n) t next there in
            ground (arith, same, answer, rest)
        | inr other ↦
            let kept = admit-others q c k t other here in
            let rest = passes-le k qs (admit r host limit window q c).1 n t (kept ∙ h) there in
            ground (arith, other, rest)
      ]

  script-fresh :
      (c : r.State) (k : String) (now : ℕ)
      → live_of now (r.entry c k) ≡ none
      → ((run_script r host limit window k now c).0 ≡ 1)
        × Counts (run_script r host limit window k now c).1 k 1 (now + window)
  unfolding run_script
  script-fresh c k now fresh =
      let reply : (r.incr k now c).0 ≡ 1 =
        counting.incr_reply k now c ∙ ap (λ o. 1 + count_of o) fresh in
      let after : r.entry (r.incr k now c).1 k ≡ some (record { count = 1; ends = none }) =
        counting.incr_entry k now c
        ∙ ap (λ o. some (record { count = 1 + count_of o; ends = ends_of o })) fresh in
      let set = counting.expire_entry k window now (r.incr k now c).1 in
      (reply, ground (arith, reply, set ∙ ap (ending_at (now + window)) after))

  admit-fresh :
      (q : Request) (c : r.State)
      → live_of q.at (r.entry c (rate_key host q)) ≡ none
      → q.answered ≡ true
      → (is_passed (admit r host limit window q c).0 ≡ not (ltb limit 1))
        × Counts (admit r host limit window q c).1 (rate_key host q) 1 (q.at + window)
  unfolding admit verdict
  admit-fresh q c fresh answered =
      let (counted, after) = script-fresh c (rate_key host q) q.at fresh in
      (ground (arith, answered, counted), ground (arith, answered, after))

  admit-lost :
      (q : Request) (c : r.State)
      → q.answered ≡ false
      → is_passed (admit r host limit window q c).0 ≡ true
  unfolding admit
  admit-lost q c lost = ground (arith, lost)

  after_verdict-passed :
      {A : Type 0} (next : Handler A) (s : Session) (x : Verdict × r.State)
      → is_passed x.0 ≡ true
      → ((after_verdict r host limit window next s x).0 ≡ (next s).0)
        × ((after_verdict r host limit window next s x).1.0 ≡ (next s).1)
  unfolding after_verdict
  after_verdict-passed next s (Verdict.passed, c) h = (refl, refl)
  after_verdict-passed next s (Verdict.too_many k, c) h = cc

  -- A client and route whose key is missing or has ended: of the request that opens the window and any
  -- further requests, of this and other keys, that Redis answers before the window's end, at most
  -- `limit` requests of the key are let through.
  pub passes-bounded :
      (q : Request) (qs : List Request) (c : r.State)
      → live_of q.at (r.entry c (rate_key host q)) ≡ none
      → q.answered ≡ true
      → all_where (in_window (q.at + window)) qs ≡ true
      → passes r host limit window (rate_key host q) (q ∷ qs) c ≤ limit
  unfolding passes
  passes-bounded q qs c fresh answered inside =
      let (answer, after) = admit-fresh q c fresh answered in
      let rest =
        passes-le (rate_key host q) qs (admit r host limit window q c).1 0 (q.at + window)
          (subst (λ n. Counts (admit r host limit window q c).1 (rate_key host q) n (q.at + window))
            (omega arith) after)
          inside in
      ground (arith, answer, rest, eq_refl (rate_key host q))

  run-Counts :
      (k : String) (qs : List Request) (c : r.State) (n t : ℕ)
      → Counts c k (1 + n) t
      → all_where (in_window t) qs ≡ true
      → (m : ℕ) × Counts (requests r host limit window qs c) k (1 + m) t
  unfolding requests
  run-Counts k [] c n t h inside = (n, h)
  run-Counts k (q ∷ qs) c n t h inside =
      let here : in_window t q ≡ true = ground (arith, inside) in
      let there : all_where (in_window t) qs ≡ true = ground (arith, inside) in
      let after = (admit r host limit window q c).1 in
      elim (Bool-cases (str_eq k (rate_key host q))) [
        | inl same ↦
            let is : k ≡ rate_key host q = (eq_iff k (rate_key host q)).0 same in
            let (answer, counts) =
              admit-Counts q c n t (subst (λ j. Counts c j (1 + n) t) is h) here in
            run-Counts k qs after (1 + n) t
              (subst (λ j. Counts after j (1 + (1 + n)) t) (sym is)
                (subst (λ m. Counts after (rate_key host q) m t) (omega arith) counts))
              there
        | inr other ↦ run-Counts k qs after n t (admit-others q c k t other here ∙ h) there
      ]

  admit-open :
      (q : Request) (c : r.State)
      → 1 ≤ limit
      → live_of q.at (r.entry c (rate_key host q)) ≡ none
      → is_passed (admit r host limit window q c).0 ≡ true
  admit-open q c some_pass fresh = elim (Bool-cases q.answered) [
    | inl reached ↦ ground (arith, some_pass, admit-fresh q c fresh reached)
    | inr lost ↦ admit-lost q c lost
  ]

  -- Nobody is locked out of a limit of at least one: a request `q` that Redis answers opens the window of
  -- its key, and any further requests follow, of this and other keys, that Redis answers before the
  -- window's end, however many of them are refused.
  -- A request of the same key at or after that end, `window` after `q`, is let through: the answer and
  -- the session are those of the handler behind the limiter, whether Redis answers that request or not.
  pub rate_limited-resumes :
      {A : Type 0} (q later : Request) (qs : List Request) (next : Handler A) (s : Session)
      (c : r.State)
      → 1 ≤ limit
      → live_of q.at (r.entry c (rate_key host q)) ≡ none
      → q.answered ≡ true
      → all_where (in_window (q.at + window)) qs ≡ true
      → rate_key host later ≡ rate_key host q
      → q.at + window ≤ later.at
      → let after = requests r host limit window (q ∷ qs) c in
        ((rate_limited r host limit window later next s after).0 ≡ (next s).0)
        × ((rate_limited r host limit window later next s after).1.0 ≡ (next s).1)
  unfolding rate_limited requests
  rate_limited-resumes q later qs next s c some_pass fresh answered inside same_key over =
      let opened = (admit r host limit window q c).1 in
      let after = requests r host limit window qs opened in
      let (m, counts) =
        run-Counts (rate_key host q) qs opened 0 (q.at + window)
          (subst (λ n. Counts opened (rate_key host q) n (q.at + window)) (omega arith)
            (admit-fresh q c fresh answered).1)
          inside in
      let ended : live_of later.at (r.entry after (rate_key host later)) ≡ none =
        ap (λ k. live_of later.at (r.entry after k)) same_key
        ∙ (ap (live_of later.at) counts ∙ ground (arith, over)) in
      after_verdict-passed next s (admit r host limit window later after)
        (admit-open later after some_pass ended)
