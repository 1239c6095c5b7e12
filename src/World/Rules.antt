-- ===== src/World/Rules.antt =====
-- A postcondition of a run from one world, and a rule for each way to build a handler. The rules
-- hand on what a test or a query has shown.
use drawback_backend.Prelude.{
  String, [], ◌∷◌, ◌++◌, Bool, true, false, Option, none, some, ◌≡◌, refl, if◌then◌else◌,
}
use drawback_backend.Schema.{Database}
use drawback_backend.World.Realtime.{Realtime, Map}
use drawback_backend.World.Monad.{
  Exception, Result, ok, err, Effect, World, Exec, return, throw, gets, or_throw, modify_db,
  modify_realtime, modify_challenges, send, throw_if, if_found, choose, continue, ◌>>=◌, ◌>>◌,
}

pub record Ensures {ℓ} {A : Type ℓ} (Q : Result A → World → Type 0) (m : Exec A) (w : World)
    : Type 0 where
  pub at : Q (m w).0 (m w).1

module _ {ℓ} {A : Type ℓ} {Q : Result A → World → Type 0} {w : World} where
  pub Ensures-return : (a : A) → Q (ok a) w → Ensures Q (return a) w
  unfolding return
  Ensures-return a h = record { at = h }

  pub Ensures-throw : (e : Exception) → Q (err e) w → Ensures Q (throw e) w
  unfolding throw
  Ensures-throw e h = record { at = h }

  pub Ensures-if :
      (b : Bool) (m n : Exec A)
      → (b ≡ true → Ensures Q m w)
      → (b ≡ false → Ensures Q n w)
      → Ensures Q (if b then m else n) w
  Ensures-if true m n hm hn = hm refl
  Ensures-if false m n hm hn = hn refl

  pub Ensures-choose :
      (b : Bool) (m n : Exec A)
      → (b ≡ true → Ensures Q m w)
      → (b ≡ false → Ensures Q n w)
      → Ensures Q (choose b m n) w
  unfolding choose
  Ensures-choose true m n hm hn = hm refl
  Ensures-choose false m n hm hn = hn refl

  pub Ensures-throw_if :
      (b : Bool) (e : Exception) (m : Exec A)
      → (b ≡ true → Q (err e) w)
      → (b ≡ false → Ensures Q m w)
      → Ensures Q (throw_if b e >> m) w
  unfolding ◌>>=◌
  Ensures-throw_if true e m ht hf = record { at = ht refl }
  Ensures-throw_if false e m ht hf = record { at = (hf refl).at }

  pub Ensures-modify_db :
      (f : Database → Database) (m : Exec A)
      → Ensures Q m (record w { db = f w.db })
      → Ensures Q (modify_db f >> m) w
  unfolding ◌>>=◌
  Ensures-modify_db f m h = record { at = h.at }

  pub Ensures-modify_realtime :
      (f : Realtime → Realtime) (m : Exec A)
      → Ensures Q m (record w { realtime = f w.realtime })
      → Ensures Q (modify_realtime f >> m) w
  unfolding ◌>>=◌
  Ensures-modify_realtime f m h = record { at = h.at }

  pub Ensures-modify_challenges :
      (f : Map String → Map String) (m : Exec A)
      → Ensures Q m (record w { challenges = f w.challenges })
      → Ensures Q (modify_challenges f >> m) w
  unfolding ◌>>=◌
  Ensures-modify_challenges f m h = record { at = h.at }

  pub Ensures-send :
      (e : Effect) (m : Exec A)
      → Ensures Q m (record w { outbox = w.outbox ++ e ∷ [] })
      → Ensures Q (send e >> m) w
  unfolding ◌>>=◌
  Ensures-send e m h = record { at = h.at }

  -- By the outcome of the run.
  pub Ensures-runs :
      {m : Exec A} {r : Result A} {w' : World} → m w ≡ (r, w') → Q r w' → Ensures Q m w
  Ensures-runs e h = record { at = rw e h }

module _ {ℓ κ} {A : Type ℓ} {B : Type κ} {Q : Result B → World → Type 0} {w : World} where
  pub Ensures-gets :
      (f : World → A) (k : A → Exec B) → Ensures Q (k (f w)) w → Ensures Q (gets f >>= k) w
  unfolding ◌>>=◌
  Ensures-gets f k h = record { at = h.at }

  pub Ensures-bind_runs :
      (m : Exec A) (k : A → Exec B) {a : A} {w' : World}
      → m w ≡ (ok a, w')
      → Ensures Q (k a) w'
      → Ensures Q (m >>= k) w
  unfolding ◌>>=◌
  Ensures-bind_runs m k e h = record { at = rw e (h.at) }

  pub Ensures-or_throw :
      (o : Option A) (e : Exception) (k : A → Exec B)
      → (o ≡ none → Q (err e) w)
      → ((a : A) → o ≡ some a → Ensures Q (k a) w)
      → Ensures Q (or_throw o e >>= k) w
  unfolding ◌>>=◌
  Ensures-or_throw none e k hn hs = record { at = hn refl }
  Ensures-or_throw (some a) e k hn hs = record { at = (hs a refl).at }

  pub Ensures-if_found :
      (o : Option A) (m : Exec B) (k : A → Exec B)
      → (o ≡ none → Ensures Q m w)
      → ((a : A) → o ≡ some a → Ensures Q (k a) w)
      → Ensures Q (if_found o m k) w
  unfolding if_found
  Ensures-if_found none m k hn hs = hn refl
  Ensures-if_found (some a) m k hn hs = hs a refl

module _ {ℓ κ} {A : Type ℓ} {B : Type κ} (Q : Result B → World → Type 0) (k : A → Exec B) where
  -- What the first part of a block must show for the rest.
  abbrev pub Then : Result A → World → Type 0
  Then (ok a) w = Ensures Q (k a) w
  Then (err e) w = Q (err e) w

  after-Then : (r : Result A) (w : World) → Then r w → Q (continue r k w).0 (continue r k w).1
  after-Then (ok a) w h = h.at
  after-Then (err e) w h = h

  pub Ensures-bind : (m : Exec A) (w : World) → Ensures Then m w → Ensures Q (m >>= k) w
  unfolding ◌>>=◌
  Ensures-bind m w h = record { at = after-Then (m w).0 (m w).1 h.at }

continue-Ensures {ℓ κ} :
    {A : Type ℓ} {B : Type κ} (P : Result A → World → Type 0) {Q : Result B → World → Type 0}
    (k : A → Exec B) (r : Result A) (w : World)
    → ((a : A) (v : World) → P (ok a) v → Ensures Q (k a) v)
    → ((e : Exception) (v : World) → P (err e) v → Q (err e) v)
    → P r w
    → Q (continue r k w).0 (continue r k w).1
continue-Ensures P k (ok a) w hk he h = (hk a w h).at
continue-Ensures P k (err e) w hk he h = he e w h

-- A part of a block for which a postcondition of its own is known.
module _ {ℓ κ} {A : Type ℓ} {B : Type κ} {P : Result A → World → Type 0}
    {Q : Result B → World → Type 0} where
  pub Ensures-then :
      (m : Exec A) (k : A → Exec B) (w : World)
      → Ensures P m w
      → ((a : A) (v : World) → P (ok a) v → Ensures Q (k a) v)
      → ((e : Exception) (v : World) → P (err e) v → Q (err e) v)
      → Ensures Q (m >>= k) w
  unfolding ◌>>=◌
  Ensures-then m k w h hk he = record { at = continue-Ensures P k (m w).0 (m w).1 hk he h.at }

-- The last action of a block.
module _ {ℓ} {A : Type ℓ} {Q : Result A → World → Type 0} {w : World} where
  pub Ensures-or_throw_last :
      (o : Option A) (e : Exception)
      → (o ≡ none → Q (err e) w)
      → ((a : A) → o ≡ some a → Q (ok a) w)
      → Ensures Q (or_throw o e) w
  unfolding or_throw
  Ensures-or_throw_last none e hn hs = record { at = hn refl }
  Ensures-or_throw_last (some a) e hn hs = record { at = hs a refl }

pub Ensures-modify_db_last :
    {Q : Result (Unit {0}) → World → Type 0} {w : World} (f : Database → Database)
    → Q (ok tt) (record w { db = f w.db })
    → Ensures Q (modify_db f) w
unfolding modify_db
Ensures-modify_db_last f h = record { at = h }

pub ruleset walk = (
  Ensures-choose, Ensures-return, Ensures-throw, Ensures-if, Ensures-throw_if, Ensures-modify_db,
  Ensures-modify_realtime, Ensures-modify_challenges, Ensures-send, Ensures-gets, Ensures-or_throw,
  Ensures-if_found,
)
