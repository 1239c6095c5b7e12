-- ===== src/Realtime/Exclusive/Keeps.antt =====
-- Actions that keep the cached rooms exclusive, and a rule for each way to build one.
use drawback_backend.Prelude.{Bool, true, false, Option, none, some, if◌then◌else◌}
use drawback_backend.Schema.{Database}
use drawback_backend.World.Realtime.{Realtime}
use drawback_backend.World.{
  Exception, Result, ok, err, Effect, World, Exec, return, throw, gets, or_throw, modify_db,
  modify_realtime, send, throw_if, if_found, continue, ◌>>=◌,
}
use drawback_backend.Realtime.Exclusive.{IsExclusive}

pub record Keeps {ℓ} {A : Type ℓ} (m : Exec A) : Type 0 where
  pub at : (w : World) → IsExclusive w.realtime → IsExclusive (m w).1.realtime

module _ {ℓ} {A : Type ℓ} where
  pub return-Keeps : (a : A) → Keeps (return a)
  unfolding return
  return-Keeps a = record { at = λ w h. h }

  pub throw-Keeps : (e : Exception) → Keeps {A = A} (throw e)
  unfolding throw
  throw-Keeps e = record { at = λ w h. h }

  pub gets-Keeps : (f : World → A) → Keeps (gets f)
  unfolding gets
  gets-Keeps f = record { at = λ w h. h }

  pub or_throw-Keeps : (o : Option A) (e : Exception) → Keeps (or_throw o e)
  unfolding or_throw
  or_throw-Keeps none e = record { at = λ w h. h }
  or_throw-Keeps (some a) e = record { at = λ w h. h }

  pub if-Keeps : (b : Bool) (m n : Exec A) → Keeps m → Keeps n → Keeps (if b then m else n)
  if-Keeps true m n hm hn = hm
  if-Keeps false m n hm hn = hn

pub throw_if-Keeps : (b : Bool) (e : Exception) → Keeps (throw_if b e)
unfolding throw_if
throw_if-Keeps true e = record { at = λ w h. h }
throw_if-Keeps false e = record { at = λ w h. h }

pub modify_db-Keeps : (f : Database → Database) → Keeps (modify_db f)
unfolding modify_db
modify_db-Keeps f = record { at = λ w h. h }

pub send-Keeps : (e : Effect) → Keeps (send e)
unfolding send
send-Keeps e = record { at = λ w h. h }

pub modify_realtime-Keeps :
    (f : Realtime → Realtime)
    → ((rt : Realtime) → IsExclusive rt → IsExclusive (f rt))
    → Keeps (modify_realtime f)
unfolding modify_realtime
modify_realtime-Keeps f k = record { at = λ w h. k w.realtime h }

module _ {ℓ κ} {A : Type ℓ} {B : Type κ} where
  pub if_found-Keeps :
      (o : Option A) (m : Exec B) (k : A → Exec B)
      → Keeps m
      → ((a : A) → Keeps (k a))
      → Keeps (if_found o m k)
  unfolding if_found
  if_found-Keeps none m k hm hk = hm
  if_found-Keeps (some a) m k hm hk = hk a

  continue-Keeps :
      (r : Result A) (k : A → Exec B) (w : World)
      → ((a : A) → Keeps (k a))
      → IsExclusive w.realtime
      → IsExclusive (continue r k w).1.realtime
  continue-Keeps (ok a) k w hk h = (hk a).at w h
  continue-Keeps (err e) k w hk h = h

  pub bind-Keeps :
      (m : Exec A) (k : A → Exec B) → Keeps m → ((a : A) → Keeps (k a)) → Keeps (m >>= k)
  unfolding ◌>>=◌
  bind-Keeps m k hm hk = record { at = λ w h. continue-Keeps (m w).0 k (m w).1 hk (hm.at w h) }

pub ruleset keeps = (
  return-Keeps, throw-Keeps, gets-Keeps, or_throw-Keeps, if-Keeps, throw_if-Keeps, modify_db-Keeps,
  send-Keeps, if_found-Keeps, bind-Keeps,
)
