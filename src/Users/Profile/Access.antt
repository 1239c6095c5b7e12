-- ===== src/Users/Profile/Access.antt =====
-- Discovery access: what a reward gives, and what a subscription must be for access.
use drawback_backend.Prelude.{
  ℕ, true, false, Option, none, some, ◌≡◌, ◌+◌, ◌*◌, ◌≤◌, ap, ◌<◌, ltb, arith, ◌||◌, ◌&&◌,
}
use drawback_backend.Schema.Enums.{is_active}
use drawback_backend.Schema.Entities.{User, Subscription}
use drawback_backend.Users.Profile.{
  grant_access, has_rewarded_discovery_access, has_active_subscription,
  get_discovery_access_snapshot, baseline, is_after,
}

granted-lasts :
    (now span t : ℕ) (o : Option ℕ)
    → t < now + span
    → is_after (some (baseline o now + span)) t ≡ true
granted-lasts now span t none h = ground arith
granted-lasts now span t (some e) h = ground arith

granted-keeps :
    (now span t : ℕ) (o : Option ℕ)
    → is_after o t ≡ true
    → is_after (some (baseline o now + span)) t ≡ true
granted-keeps now span t none h = ground arith
granted-keeps now span t (some e) h = ground arith

-- A grant of some minutes gives access for these minutes from now on at least.
pub grant_access-lasts :
    (now minutes t : ℕ) (u : User)
    → t < now + minutes * 60 * 1000
    → has_rewarded_discovery_access (grant_access now minutes u) t ≡ true
unfolding grant_access has_rewarded_discovery_access
grant_access-lasts now minutes t u h = granted-lasts now (minutes * 60 * 1000) t _ h

-- A grant never takes away access that the user had, at any time.
pub grant_access-keeps :
    (now minutes t : ℕ) (u : User)
    → has_rewarded_discovery_access u t ≡ true
    → has_rewarded_discovery_access (grant_access now minutes u) t ≡ true
unfolding grant_access has_rewarded_discovery_access
grant_access-keeps now minutes t u h = granted-keeps now (minutes * 60 * 1000) t _ h

later-le : (o : Option ℕ) (now : ℕ) → now ≤ baseline o now
later-le none now = omega arith
later-le (some e) now = ground arith

later_again : (t now : ℕ) → now ≤ t → baseline (some t) now ≡ t
later_again t now h = ground arith

-- Two grants at one time are worth one grant of the minutes of both.
pub grant_access-add :
    (now a b : ℕ) (u : User)
    → grant_access now b (grant_access now a u) ≡ grant_access now (a + b) u
unfolding grant_access
grant_access-add now a b u =
    let first = baseline u.temporary_discovery_access_expires_at now in
    let le = later-le u.temporary_discovery_access_expires_at now in
    let again = later_again (first + a * 60 * 1000) now (omega (arith, le)) in
    let total : baseline (some (first + a * 60 * 1000)) now + b * 60 * 1000
        ≡ first + (a + b) * 60 * 1000 =
      omega (arith, again) in
    ap (λ t. record u { temporary_discovery_access_expires_at = some t }) total

-- A subscription whose status is not active gives no access, however far its end is: the user has the
-- access of a user without a subscription.
pub snapshot-inactive :
    (u : User) (s : Subscription) (now : ℕ)
    → is_active s.status ≡ false
    → get_discovery_access_snapshot u (some s) now ≡ get_discovery_access_snapshot u none now
unfolding get_discovery_access_snapshot has_active_subscription
snapshot-inactive u s now h =
    let rewarded = has_rewarded_discovery_access u now in
    let ends : (ltb now s.end_date && is_active s.status) ≡ false = ground arith in
    ap
      (λ b. record {
        has_subscription = b;
        has_rewarded_access = rewarded;
        has_access = b || rewarded;
        expires_at = u.temporary_discovery_access_expires_at;
      })
      ends
