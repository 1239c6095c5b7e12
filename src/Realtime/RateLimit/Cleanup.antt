-- ===== src/Realtime/RateLimit/Cleanup.antt =====
-- The periodic cleanup changes no later decision.
use drawback_backend.Prelude.{ℕ, ◌≤◌, ◌<◌, ◌≡◌, Option, some, arith, ap, ==_refl}
use drawback_backend.World.{World, ok, ◌>>=◌}
use drawback_backend.World.Realtime.{RateEntry}
use drawback_backend.Realtime.RateLimit.{
  cleanup, fresh_entry, is_stroke_rate_limited, is_clear_rate_limited, touch, exceeds, entry_or_new,
  stroke_rate_limit, stroke_rate_window_ms, clear_rate_limit, clear_rate_window_ms,
}

-- An entry that was dropped, and one that was kept, decide alike, and leave the same entry.
module _ (limit window cleaned now : ℕ) (o : Option RateEntry) (h : cleaned ≤ now) where
  exceeds-fresh_entry :
      0 < limit
      → exceeds limit window now (entry_or_new now (fresh_entry window cleaned o))
        ≡ exceeds limit window now (entry_or_new now o)
  unfolding fresh_entry exceeds
  exceeds-fresh_entry some' = ground arith

  touch-fresh_entry :
      touch window now (entry_or_new now (fresh_entry window cleaned o))
      ≡ touch window now (entry_or_new now o)
  unfolding fresh_entry touch
  touch-fresh_entry = ground arith

abbrev pub cleaned_up : ℕ → World → World
cleaned_up t w = record w { realtime = cleanup t w.realtime }

-- After a cleanup, the next `draw.stroke` of a socket at any later time is let through or refused as
-- without it, and leaves the same entry for the socket.
pub stroke-cleanup :
    (cleaned now socket : ℕ) (w : World)
    → cleaned ≤ now
    → ((is_stroke_rate_limited now socket (cleaned_up cleaned w)).0
        ≡ (is_stroke_rate_limited now socket w).0)
      × ((is_stroke_rate_limited now socket (cleaned_up cleaned w)).1.realtime.stroke_rate_map
            socket
          ≡ (is_stroke_rate_limited now socket w).1.realtime.stroke_rate_map socket)
unfolding is_stroke_rate_limited cleanup ◌>>=◌
stroke-cleanup cleaned now socket w h =
    let o = w.realtime.stroke_rate_map socket in
    (
      ap ok (
          exceeds-fresh_entry stroke_rate_limit stroke_rate_window_ms cleaned now o h
            (omega arith)),
      rw (==_refl socket)
          (ap some (touch-fresh_entry stroke_rate_limit stroke_rate_window_ms cleaned now o h)),
    )

-- After a cleanup, the next `draw.clear` of a socket at any later time is let through or refused as
-- without it, and leaves the same entry for the socket.
pub clear-cleanup :
    (cleaned now socket : ℕ) (w : World)
    → cleaned ≤ now
    → ((is_clear_rate_limited now socket (cleaned_up cleaned w)).0
        ≡ (is_clear_rate_limited now socket w).0)
      × ((is_clear_rate_limited now socket (cleaned_up cleaned w)).1.realtime.clear_rate_map socket
          ≡ (is_clear_rate_limited now socket w).1.realtime.clear_rate_map socket)
unfolding is_clear_rate_limited cleanup ◌>>=◌
clear-cleanup cleaned now socket w h =
    let o = w.realtime.clear_rate_map socket in
    (
      ap ok
          (exceeds-fresh_entry clear_rate_limit clear_rate_window_ms cleaned now o h (omega arith)),
      rw (==_refl socket)
          (ap some (touch-fresh_entry clear_rate_limit clear_rate_window_ms cleaned now o h)),
    )
