-- ===== src/Realtime/RateLimit.antt =====
-- realtime/draw.gateway.ts: the limits on `draw.clear` and `draw.stroke`, and the periodic cleanup
-- of `afterInit`. The clock is an argument; a window that has passed is written as a sum, so that
-- no difference is cut off at 0.
pub mod Window
pub mod Cleanup
use drawback_backend.Prelude.{
  ℕ, Bool, true, false, Option, none, some, ◌+◌, ◌*◌, leb, ltb, if◌then◌else◌,
}
use drawback_backend.World.{Exec, return, gets, modify_realtime, ◌>>=◌, ◌>>◌}
use drawback_backend.World.Realtime.{Realtime, RateEntry, Map, put}

abbrev pub clear_rate_limit : ℕ
clear_rate_limit = 5

abbrev pub clear_rate_window_ms : ℕ
clear_rate_window_ms = 5000

abbrev pub stroke_rate_limit : ℕ
stroke_rate_limit = 120

abbrev pub stroke_rate_window_ms : ℕ
stroke_rate_window_ms = 1000

-- `get(socketId) ?? { count: 0, windowStart: now }`
abbrev pub entry_or_new : ℕ → Option RateEntry → RateEntry
entry_or_new now none = record { count = 0; window_start = now }
entry_or_new now (some e) = e

abbrev pub has_passed : ℕ → ℕ → RateEntry → Bool
has_passed window now e = leb (e.window_start + window) now

-- The entry that a call leaves, and whether it refuses.
unfoldable pub touch : ℕ → ℕ → RateEntry → RateEntry
touch window now e =
    if has_passed window now e
    then record { count = 1; window_start = now }
    else record e { count = e.count + 1 }

unfoldable pub exceeds : ℕ → ℕ → ℕ → RateEntry → Bool
exceeds limit window now e = if has_passed window now e then false else ltb limit (e.count + 1)

unfoldable pub is_clear_rate_limited : ℕ → ℕ → Exec Bool
is_clear_rate_limited now socket_id = do
  found ← gets (λ w. w.realtime.clear_rate_map socket_id)
  modify_realtime (λ rt. record rt {
    clear_rate_map =
        put socket_id (touch clear_rate_window_ms now (entry_or_new now found)) rt.clear_rate_map;
  })
  return (exceeds clear_rate_limit clear_rate_window_ms now (entry_or_new now found))

unfoldable pub is_stroke_rate_limited : ℕ → ℕ → Exec Bool
is_stroke_rate_limited now socket_id = do
  found ← gets (λ w. w.realtime.stroke_rate_map socket_id)
  modify_realtime (λ rt. record rt {
    stroke_rate_map =
        put socket_id (touch stroke_rate_window_ms now (entry_or_new now found)) rt.stroke_rate_map;
  })
  return (exceeds stroke_rate_limit stroke_rate_window_ms now (entry_or_new now found))

-- The cleanup drops the entries whose window began more than two windows ago.
unfoldable pub fresh_entry : ℕ → ℕ → Option RateEntry → Option RateEntry
fresh_entry window now none = none
fresh_entry window now (some e) = if ltb (e.window_start + window * 2) now then none else some e

unfoldable pub cleanup : ℕ → Realtime → Realtime
cleanup now rt = record rt {
  clear_rate_map = λ s. fresh_entry clear_rate_window_ms now (rt.clear_rate_map s);
  stroke_rate_map = λ s. fresh_entry stroke_rate_window_ms now (rt.stroke_rate_map s);
}
