-- ===== src/Realtime/RateLimit/Window.antt =====
-- How many events of a socket pass its limit.
use Prim.Native.Nat.{min}
use drawback_backend.Prelude.{
  ℕ, ◌+◌, ◌-◌, ◌*◌, ◌≤◌, ◌<◌, List, [], ◌∷◌, none, ◌≡◌, All, length, All-mono, suc, if◌then◌else◌,
  arith,
}
use drawback_backend.World.Realtime.{RateEntry}
use drawback_backend.Realtime.RateLimit.{touch, exceeds, entry_or_new}

-- The number of the events at these times that are let through, one after the other.
module _ (limit window : ℕ) where
  unfoldable pub passed : RateEntry → List ℕ → ℕ
  passed e [] = 0
  passed e (t ∷ ts) = (if exceeds limit window t e then 0 else 1) + passed (touch window t e) ts

  pub passed_new : List ℕ → ℕ
  passed_new [] = 0
  passed_new (t ∷ ts) = passed (entry_or_new t none) (t ∷ ts)

module _ (limit window : ℕ) (some' : 0 < limit) where
  -- Within the window of an entry what is left of the limit passes, and no more.
  passed_same :
      (e : RateEntry) (ts : List ℕ)
      → All (λ t. t < e.window_start + window) ts
      → passed limit window e ts ≡ min (limit - e.count) (length ts)
  unfolding passed touch exceeds
  passed_same e [] a = omega arith
  passed_same e (t ∷ ts) a = ground (arith, passed_same (record e { count = e.count + 1 }) ts a.1)

  passed_any :
      (from : ℕ) (e : RateEntry) (ts : List ℕ)
      → All (λ t. (from ≤ t) × (t < from + window)) ts
      → passed limit window e ts ≤ (limit - e.count) + limit
  unfolding passed touch exceeds
  passed_any from e [] a = omega arith
  passed_any from e (t ∷ ts) a =
      let later : All (λ x. x < t + window) ts = All-mono ts (λ x h. omega arith) a.1 in
      ground (
        arith,
        passed_any from (record e { count = e.count + 1 }) ts a.1,
        passed_same (record { count = 1; window_start = t }) ts later,
      )

  -- Whatever entry a socket has, of any events whose times lie in one stretch as long as the window
  -- at most twice the limit pass.
  pub passed-le-twice :
      (from : ℕ) (e : RateEntry) (ts : List ℕ)
      → All (λ t. (from ≤ t) × (t < from + window)) ts
      → passed limit window e ts ≤ 2 * limit
  passed-le-twice from e ts a = omega (arith, passed_any from e ts a)

  -- A socket without an entry that sends events within one window of its first gets as many of them
  -- through as the limit allows: all of them up to the limit, and no more.
  pub passed_new-eq-min :
      (t : ℕ) (ts : List ℕ)
      → 0 < window
      → All (λ x. x < t + window) ts
      → passed_new limit window (t ∷ ts) ≡ min limit (suc (length ts))
  unfolding passed_new
  passed_new-eq-min t ts pos a =
      ground (arith, passed_same (entry_or_new t none) (t ∷ ts) (omega arith, a))
