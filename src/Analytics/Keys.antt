-- ===== src/Analytics/Keys.antt =====
-- analytics/service/service.go: `cacheKey`, and that no two questions share a key.
use Prim.Native.String.{◌++◌ as join}
use Prim.Native.Char.{code}
use text.Mathlib.TextLemmas.{
  append_cancel_left, append_assoc, append-nil, cons-append, head-eq_of_cons-eq,
}
use text.Mathlib.TextEquality.{eq_iff}
use senior_project.Common.{
  ◌⊎◌, inl, inr, ℕ, String, Bool, true, false, ◌≡◌, refl, ap, sym, ◌∙◌, Option, none, some,
  if◌then◌else◌, arith,
}

abbrev pub scope_text : Bool → String
scope_text is_admin = if is_admin then "admin" else "organizer"

module _ (uuid_text : ℕ → String) where
  unfoldable pub cache_key : ℕ → Bool → Option ℕ → String
  cache_key caller is_admin (some event) = join "analytics:event_stats:event:" (
      join (uuid_text event)
        (join ":caller:" (join (uuid_text caller) (join ":" (scope_text is_admin)))))
  cache_key caller is_admin none =
      if is_admin
      then "analytics:event_stats:aggregate:admin"
      else join "analytics:event_stats:aggregate:organizer:" (uuid_text caller)

-- No uuid's text begins another's: they all have the same length.
abbrev pub IsPrefixFree : (ℕ → String) → Type 0
IsPrefixFree uuid_text =
    (a b : ℕ) (x y : String) → join (uuid_text a) x ≡ join (uuid_text b) y → (a ≡ b) × (x ≡ y)

event_is_no_aggregate :
    (r t : String)
    → join "analytics:event_stats:event:" r ≡ join "analytics:event_stats:aggregate:" t
    → ⊥
event_is_no_aggregate r t h =
    let cut : join "event:" r ≡ join "aggregate:" t =
      append_cancel_left "analytics:event_stats:" (join "event:" r) (join "aggregate:" t) (
        sym (append_assoc "analytics:event_stats:" "event:" r)
        ∙ (h ∙ append_assoc "analytics:event_stats:" "aggregate:" t)) in
    let first = ap code (
      head-eq_of_cons-eq
        (sym (cons-append "e" "vent:" r) ∙ (cut ∙ cons-append "a" "ggregate:" t))) in
    omega (arith, first)

scope_text-injective : (a b : Bool) → scope_text a ≡ scope_text b → a ≡ b
scope_text-injective true true h = refl
scope_text-injective false false h = refl
scope_text-injective true false h = ground (arith, h, eq_iff "admin" "organizer")
scope_text-injective false true h = ground (arith, h, eq_iff "organizer" "admin")

-- The key of a question about one event is the key of no other question.
pub event_key_injective :
    (uuid_text : ℕ → String)
    → IsPrefixFree uuid_text
    → (caller other event : ℕ) (is_admin other_admin : Bool) (question : Option ℕ)
    → cache_key uuid_text caller is_admin (some event)
      ≡ cache_key uuid_text other other_admin question
    → (question ≡ some event) × (other ≡ caller) × (other_admin ≡ is_admin)
unfolding cache_key
event_key_injective uuid_text free caller other event is_admin other_admin (some k) h =
    let (same_event, rest) =
      free event k _ _ (append_cancel_left "analytics:event_stats:event:" _ _ h) in
    let (same_caller, last) = free caller other _ _ (append_cancel_left ":caller:" _ _ rest) in
    let scopes = append_cancel_left ":" _ _ last in
    (
      ap some (sym same_event),
      sym same_caller,
      sym (scope_text-injective is_admin other_admin scopes),
    )
event_key_injective uuid_text free caller other event is_admin true none h =
    absurd (event_is_no_aggregate _ "admin" h)
event_key_injective uuid_text free caller other event is_admin false none h = absurd (
    event_is_no_aggregate _ (join "organizer:" (uuid_text other))
      (h ∙ append_assoc "analytics:event_stats:aggregate:" "organizer:" (uuid_text other)))

all_is_no_organizer : (text : String) → join "admin" "" ≡ join "organizer:" text → ⊥
all_is_no_organizer text h = omega (
  arith,
  ap code (
      head-eq_of_cons-eq
        (sym (cons-append "a" "dmin" "") ∙ (h ∙ cons-append "o" "rganizer:" text))),
)

-- The keys of the questions about all events: one for the admins, and one for each organizer.
aggregate_key_injective :
    (uuid_text : ℕ → String)
    → IsPrefixFree uuid_text
    → (caller other : ℕ) (is_admin other_admin : Bool)
    → cache_key uuid_text caller is_admin none ≡ cache_key uuid_text other other_admin none
    → (other_admin ≡ is_admin) × ((other ≡ caller) ⊎ (is_admin ≡ true))
unfolding cache_key
aggregate_key_injective uuid_text free caller other true true h = (refl, inr refl)
aggregate_key_injective uuid_text free caller other false false h =
    let rest = append_cancel_left "analytics:event_stats:aggregate:organizer:" _ _ h in
    (
      refl,
      inl (
          sym
            (free caller other "" ""
              (append-nil (uuid_text caller) ∙ (rest ∙ sym (append-nil (uuid_text other))))).0),
    )
aggregate_key_injective uuid_text free caller other true false h = absurd (
    all_is_no_organizer (uuid_text other) (
      append_cancel_left "analytics:event_stats:aggregate:" "admin"
        (join "organizer:" (uuid_text other))
        (h ∙ append_assoc "analytics:event_stats:aggregate:" "organizer:" (uuid_text other))))
aggregate_key_injective uuid_text free caller other false true h = absurd (
    all_is_no_organizer (uuid_text caller) (
      append_cancel_left "analytics:event_stats:aggregate:" "admin"
        (join "organizer:" (uuid_text caller))
        (sym h ∙ append_assoc "analytics:event_stats:aggregate:" "organizer:" (uuid_text caller))))

-- Where no uuid's text begins another's, two questions, about one event or about all, that share a key
-- are the same question, asked in the same role, and by the same caller unless it is the admins'
-- question about all events.
pub cache_key-injective :
    (uuid_text : ℕ → String)
    → IsPrefixFree uuid_text
    → (caller other : ℕ) (is_admin other_admin : Bool) (asked question : Option ℕ)
    → cache_key uuid_text caller is_admin asked ≡ cache_key uuid_text other other_admin question
    → (question ≡ asked)
      × (other_admin ≡ is_admin)
      × ((other ≡ caller) ⊎ ((is_admin ≡ true) × (asked ≡ none)))
cache_key-injective uuid_text free caller other is_admin other_admin (some event) question h =
    let (same, caller_is, role) =
      event_key_injective uuid_text free caller other event is_admin other_admin question h in
    (same, role, inl caller_is)
cache_key-injective uuid_text free caller other is_admin other_admin none (some event) h =
    let (never, caller_is, role) =
      event_key_injective uuid_text free other caller event other_admin is_admin none (sym h) in
    (sym never, sym role, inl (sym caller_is))
cache_key-injective uuid_text free caller other is_admin other_admin none none h =
    let (role, who) = aggregate_key_injective uuid_text free caller other is_admin other_admin h in
    (refl, role, elim who [ inl same ↦ inl same | inr admin ↦ inr (admin, refl) ])
