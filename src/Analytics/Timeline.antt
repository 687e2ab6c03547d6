-- ===== src/Analytics/Timeline.antt =====
-- What the timeline of registrations counts.
use senior_project.Common.{
  ℕ, ◌+◌, ◌*◌, Bool, true, ◌&&◌, leb, ltb, ◌==◌, List, [], ◌∷◌, if◌then◌else◌,
}
use senior_project.Tables.{Ticket}
use senior_project.Ticketing.Statements.{seat_at}
use senior_project.Analytics.Stats.{RegistrationHour}

-- The hours come in order, each once.
abbrev pub ascends_from : ℕ → List RegistrationHour → Bool
ascends_from low [] = true
ascends_from low (b ∷ bs) = ltb low b.hour && ascends_from b.hour bs

abbrev pub is_ascending : List RegistrationHour → Bool
is_ascending [] = true
is_ascending (b ∷ bs) = ascends_from b.hour bs

-- The count that the timeline gives for an hour.
abbrev pub count_at : ℕ → List RegistrationHour → ℕ
count_at h [] = 0
count_at h (b ∷ bs) = (if h == b.hour then b.count else 0) + count_at h bs

abbrev pub count_sum : List RegistrationHour → ℕ
count_sum [] = 0
count_sum (b ∷ bs) = b.count + count_sum bs

-- The hours that the timeline may have, read off the clock without a division.
abbrev pub falls_in : ℕ → ℕ → Ticket → Bool
falls_in hour start t = leb start t.created_at && ltb t.created_at (start + hour)

-- A registration of the event, active or used, that is at most seven days old.
abbrev pub is_shown : ℕ → ℕ → ℕ → Ticket → Bool
is_shown hour id now t = seat_at id t && leb now (t.created_at + 7 * (24 * hour))
