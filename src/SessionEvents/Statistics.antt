-- ===== src/SessionEvents/Statistics.antt =====
-- What the statistics and the cleanup make of the log.
use drawback_backend.Prelude.{ℕ, true, List, [], ◌∷◌, ◌≡◌, refl, ◌+◌, ◌-◌, count, leb, arith}
use drawback_backend.Schema.{Database}
use drawback_backend.Schema.Entities.{SessionEvent}
use drawback_backend.Schema.Enums.{SessionEventType}
use drawback_backend.SessionEvents.{same_type, days, is_older, get_event_stats}

older_or_newer :
    (t : ℕ) (es : List SessionEvent)
    → count (is_older t) es + count (λ e. leb t e.created_at) es ≡ count (λ _. true) es
unfolding count
older_or_newer t [] = refl
older_or_newer t (e ∷ es) = ground (arith, older_or_newer t es)

of_some_type :
    (es : List SessionEvent)
    → count (λ e. same_type e.event_type SessionEventType.connect) es
        + count (λ e. same_type e.event_type SessionEventType.disconnect) es
        + count (λ e. same_type e.event_type SessionEventType.chat_joined) es
        + count (λ e. same_type e.event_type SessionEventType.chat_left) es
      ≡ count (λ _. true) es
unfolding count
of_some_type [] = refl
of_some_type (e ∷ es) = let rest = of_some_type es in ground (arith, rest)

-- In the statistics the numbers by type add up to the total, and what is called the last 24 hours and
-- the last 7 days are the events from before them: with the events from then on they make the total.
pub get_event_stats-counts_older :
    (now : ℕ) (db : Database)
    → let s = get_event_stats now db in
      (s.by_type SessionEventType.connect
          + s.by_type SessionEventType.disconnect
          + s.by_type SessionEventType.chat_joined
          + s.by_type SessionEventType.chat_left
        ≡ s.total)
      × (s.last_24_hours + count (λ e. leb (now - days 1) e.created_at) db.session_events ≡ s.total)
      × (s.last_7_days + count (λ e. leb (now - days 7) e.created_at) db.session_events ≡ s.total)
unfolding get_event_stats
get_event_stats-counts_older now db = (
  of_some_type db.session_events,
  older_or_newer (now - days 1) db.session_events,
  older_or_newer (now - days 7) db.session_events,
)
