-- ===== src/World/Preserves.antt =====
-- Actions that preserve an invariant of the database, whatever their outcome, and a rule for each way
-- to build one. The rule for a write asks that the write preserves the invariant.
use drawback_backend.Prelude.{
  ◌≡◌, Option-cases, inl, inr, Bool, true, false, Option, none, some, if◌then◌else◌, String,
}
use drawback_backend.Schema.{Database}
use drawback_backend.World.Realtime.{Realtime, Map}
use drawback_backend.World.Monad.{
  Exception, Result, ok, err, Effect, World, Exec, return, throw, gets, or_throw, modify_db,
  modify_realtime, modify_challenges, send, throw_if, if_found, choose, continue, ◌>>=◌,
}

pub record Preserves {ℓ} {A : Type ℓ} (I : Database → Type 0) (m : Exec A) : Type 0 where
  pub at : (w : World) → I w.db → I (m w).1.db

module _ {ℓ} {A : Type ℓ} (I : Database → Type 0) where
  pub return-Preserves : (a : A) → Preserves I (return a)
  unfolding return
  return-Preserves a = record { at = λ w h. h }

  pub throw-Preserves : (e : Exception) → Preserves {A = A} I (throw e)
  unfolding throw
  throw-Preserves e = record { at = λ w h. h }

  pub gets-Preserves : (f : World → A) → Preserves I (gets f)
  unfolding gets
  gets-Preserves f = record { at = λ w h. h }

  pub or_throw-Preserves : (o : Option A) (e : Exception) → Preserves I (or_throw o e)
  unfolding or_throw
  or_throw-Preserves none e = record { at = λ w h. h }
  or_throw-Preserves (some a) e = record { at = λ w h. h }

  pub if-Preserves :
      (b : Bool) (m n : Exec A) → Preserves I m → Preserves I n → Preserves I (if b then m else n)
  if-Preserves true m n hm hn = hm
  if-Preserves false m n hm hn = hn

  pub choose-Preserves :
      (b : Bool) (m n : Exec A) → Preserves I m → Preserves I n → Preserves I (choose b m n)
  unfolding choose
  choose-Preserves true m n hm hn = hm
  choose-Preserves false m n hm hn = hn

module _ (I : Database → Type 0) where
  pub throw_if-Preserves : (b : Bool) (e : Exception) → Preserves I (throw_if b e)
  unfolding throw_if
  throw_if-Preserves true e = record { at = λ w h. h }
  throw_if-Preserves false e = record { at = λ w h. h }

  pub modify_realtime-Preserves : (f : Realtime → Realtime) → Preserves I (modify_realtime f)
  unfolding modify_realtime
  modify_realtime-Preserves f = record { at = λ w h. h }

  pub modify_challenges-Preserves :
      (f : Map String → Map String) → Preserves I (modify_challenges f)
  unfolding modify_challenges
  modify_challenges-Preserves f = record { at = λ w h. h }

  pub send-Preserves : (e : Effect) → Preserves I (send e)
  unfolding send
  send-Preserves e = record { at = λ w h. h }

  pub modify_db-Preserves :
      (f : Database → Database) → ((db : Database) → I db → I (f db)) → Preserves I (modify_db f)
  unfolding modify_db
  modify_db-Preserves f k = record { at = λ w h. k w.db h }

module _ {ℓ κ} {A : Type ℓ} {B : Type κ} (I : Database → Type 0) where
  pub if_found-Preserves :
      (o : Option A) (m : Exec B) (k : A → Exec B)
      → Preserves I m
      → ((a : A) → Preserves I (k a))
      → Preserves I (if_found o m k)
  unfolding if_found
  if_found-Preserves none m k hm hk = hm
  if_found-Preserves (some a) m k hm hk = hk a

  -- What a query has not found is known of the world that is left.
  pub gets_found-Preserves :
      (f : World → Option A) (m : Exec B) (k : A → Exec B)
      → ((w : World) → I w.db → f w ≡ none → I (m w).1.db)
      → ((a : A) → Preserves I (k a))
      → Preserves I (gets f >>= λ o. if_found o m k)
  unfolding ◌>>=◌
  gets_found-Preserves f m k hm hk = record {
    at = λ w h. elim (Option-cases (f w)) [
      | inl e ↦ rw (e, ◌>>=◌) (hm w h e)
      | inr (a, e) ↦ rw (e, ◌>>=◌) ((hk a).at w h)
    ];
  }

  continue-Preserves :
      (r : Result A) (k : A → Exec B) (w : World)
      → ((a : A) → Preserves I (k a))
      → I w.db
      → I (continue r k w).1.db
  continue-Preserves (ok a) k w hk h = (hk a).at w h
  continue-Preserves (err e) k w hk h = h

  pub bind-Preserves :
      (m : Exec A) (k : A → Exec B)
      → Preserves I m
      → ((a : A) → Preserves I (k a))
      → Preserves I (m >>= k)
  unfolding ◌>>=◌
  bind-Preserves m k hm hk = record {
    at = λ w h. continue-Preserves (m w).0 k (m w).1 hk (hm.at w h);
  }

pub ruleset preserves = (
  return-Preserves, throw-Preserves, gets-Preserves, or_throw-Preserves, if-Preserves,
  choose-Preserves, throw_if-Preserves, modify_realtime-Preserves, modify_challenges-Preserves,
  send-Preserves, if_found-Preserves, bind-Preserves,
)
