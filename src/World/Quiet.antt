-- ===== src/World/Quiet.antt =====
-- Actions that always return and leave the database alone: what the gateway and the mailer do.
use drawback_backend.Prelude.{Bool, true, false, Option, none, some, ◌≡◌, refl, ◌∙◌, if◌then◌else◌}
use drawback_backend.World.Realtime.{Realtime}
use drawback_backend.World.Monad.{
  Result, ok, Effect, World, Exec, return, gets, modify_realtime, send, if_found, ◌>>=◌,
}
use drawback_backend.World.Rules.{Ensures}

pub record IsQuiet {ℓ} {A : Type ℓ} (m : Exec A) : Type ℓ where
  pub result : World → A
  pub world : World → World
  pub runs : (w : World) → m w ≡ (ok (result w), world w)
  pub same_db : (w : World) → (world w).db ≡ w.db

pub return-IsQuiet {ℓ} : {A : Type ℓ} (a : A) → IsQuiet (return a)
unfolding return
return-IsQuiet a = record { result = λ w. a; world = λ w. w; runs = λ w. refl; same_db = λ w. refl }

pub send-IsQuiet : (e : Effect) → IsQuiet (send e)
unfolding send
send-IsQuiet e = record {
  result = λ w. tt;
  world = λ w. (send e w).1;
  runs = λ w. refl;
  same_db = λ w. refl;
}

pub modify_realtime-IsQuiet : (f : Realtime → Realtime) → IsQuiet (modify_realtime f)
unfolding modify_realtime
modify_realtime-IsQuiet f = record {
  result = λ w. tt;
  world = λ w. (modify_realtime f w).1;
  runs = λ w. refl;
  same_db = λ w. refl;
}

module _ {ℓ} {A : Type ℓ} where
  pub if-IsQuiet : (b : Bool) (m n : Exec A) → IsQuiet m → IsQuiet n → IsQuiet (if b then m else n)
  if-IsQuiet true m n hm hn = hm
  if-IsQuiet false m n hm hn = hn

module _ {ℓ κ} {A : Type ℓ} {B : Type κ} where
  pub if_found-IsQuiet :
      (o : Option A) (m : Exec B) (k : A → Exec B)
      → IsQuiet m
      → ((a : A) → IsQuiet (k a))
      → IsQuiet (if_found o m k)
  unfolding if_found
  if_found-IsQuiet none m k hm hk = hm
  if_found-IsQuiet (some a) m k hm hk = hk a

  pub bind-IsQuiet :
      (m : Exec A) (k : A → Exec B) → IsQuiet m → ((a : A) → IsQuiet (k a)) → IsQuiet (m >>= k)
  unfolding ◌>>=◌
  bind-IsQuiet m k hm hk = record {
    result = λ w. (hk (hm.result w)).result (hm.world w);
    world = λ w. (hk (hm.result w)).world (hm.world w);
    runs = λ w. rw (hm.runs w) ((hk (hm.result w)).runs (hm.world w));
    same_db = λ w. (hk (hm.result w)).same_db (hm.world w) ∙ hm.same_db w;
  }

pub gets-IsQuiet {ℓ} : {A : Type ℓ} (f : World → A) → IsQuiet (gets f)
unfolding gets
gets-IsQuiet f = record { result = f; world = λ w. w; runs = λ w. refl; same_db = λ w. refl }

pub ruleset quiet = (
  return-IsQuiet, send-IsQuiet, modify_realtime-IsQuiet, if-IsQuiet, if_found-IsQuiet, bind-IsQuiet,
  gets-IsQuiet,
)

-- After a quiet action a block goes on in a world with the same database.
pub Ensures-quiet {ℓ κ} :
    {A : Type ℓ} {B : Type κ} {Q : Result B → World → Type 0} {w : World} (m : Exec A)
    (k : A → Exec B)
    → IsQuiet m
    → ((a : A) (w' : World) → w'.db ≡ w.db → Ensures Q (k a) w')
    → Ensures Q (m >>= k) w
unfolding ◌>>=◌
Ensures-quiet {w} m k h rest = record {
  at = rw (h.runs w) ((rest (h.result w) (h.world w) (h.same_db w)).at);
}
