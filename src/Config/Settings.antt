-- ===== src/Config/Settings.antt =====
-- What is read of the configuration and the overrides after they were written.
use drawback_backend.Prelude.{
  ℕ, String, List, [], ◌∷◌, ◌++◌, ◌∙◌, Option, none, some, ◌≡◌, refl, ap, update_where, ◌==◌,
  ==_refl, arith, head_of, Option-cases, inl, inr,
}
use drawback_backend.Schema.{Database}
use drawback_backend.Schema.Entities.{AppConfig, AppConfigData}
use drawback_backend.World.{World, ok, gets, ◌>>=◌}
use drawback_backend.Config.{
  PartialConfig, normalize_config, as_partial, stored, get_config, set_config, write_config,
  insert_config, provider_of, duration_of,
}

duration_of-again : (o : Option ℕ) → duration_of (some (duration_of o)) ≡ duration_of o
duration_of-again none = refl
duration_of-again (some n) = ground arith

abbrev config_of : String → ℕ → AppConfigData
config_of provider minutes = record {
  ads_provider = provider;
  temporary_discovery_access_duration_minutes = minutes;
}

normalize_config-again :
    (c : PartialConfig)
    → normalize_config (some (as_partial (normalize_config (some c)))) ≡ normalize_config (some c)
unfolding normalize_config
normalize_config-again c =
    let kept = duration_of-again c.temporary_discovery_access_duration_minutes in
    ap (config_of (provider_of c.ads_provider)) kept

first_inserted :
    (id : ℕ) (config : AppConfigData) (rows : List AppConfig)
    → head_of rows ≡ none
    → stored (head_of (rows ++ record { id = id; config = config } ∷ [])) ≡ some (as_partial config)
first_inserted id config [] h = refl
first_inserted id config (x ∷ xs) h = ground arith

first_of_rows :
    (config : AppConfigData) (r : AppConfig) (rows : List AppConfig)
    → head_of rows ≡ some r
    → stored (head_of (update_where (λ x. x.id == r.id) (λ x. record x { config = config }) rows))
      ≡ some (as_partial config)
unfolding update_where
first_of_rows config r [] h = ground arith
first_of_rows config r (x ∷ xs) h = let same : x ≡ r = ground arith in rw (same, ==_refl r.id) refl

-- Only the first row is read, and a write goes to it.
written_first :
    (config : AppConfigData) (r : AppConfig) (db : Database)
    → head_of db.app_configs ≡ some r
    → stored (head_of (write_config r.id config db).app_configs) ≡ some (as_partial config)
unfolding write_config
written_first config r db h = first_of_rows config r db.app_configs h

set_config-answers :
    (id : ℕ) (c : PartialConfig) (w : World)
    → (set_config id c w).0 ≡ ok (normalize_config (some c))
unfolding set_config ◌>>=◌
set_config-answers id c w = elim (Option-cases (head_of w.db.app_configs)) [
  | inl e ↦ rw (e, ◌>>=◌) refl
  | inr (r, e) ↦ rw (e, ◌>>=◌) refl
]

set_config-stores :
    (id : ℕ) (c : PartialConfig) (w : World)
    → stored (head_of (set_config id c w).1.db.app_configs)
      ≡ some (as_partial (normalize_config (some c)))
unfolding set_config insert_config ◌>>=◌
set_config-stores id c w = elim (Option-cases (head_of w.db.app_configs)) [
  | inl e ↦ rw (e, ◌>>=◌) (first_inserted id (normalize_config (some c)) w.db.app_configs e)
  | inr (r, e) ↦ rw (e, ◌>>=◌) (written_first (normalize_config (some c)) r w.db e)
]

-- What is read after a write is the configuration that the write was given, with the defaults for what
-- is missing or not positive, which is also what the write answered; and to write what was read
-- answers the same again, whether or not there was a row before.
pub get_config-set_config :
    (id id' : ℕ) (c : PartialConfig) (w : World)
    → let w' = (set_config id c w).1 in
      ((set_config id c w).0 ≡ ok (normalize_config (some c)))
      × ((get_config w').0 ≡ ok (normalize_config (some c)))
      × ((set_config id' (as_partial (normalize_config (some c))) w').0
          ≡ ok (normalize_config (some c)))
unfolding get_config gets
get_config-set_config id id' c w =
    let same = normalize_config-again c in
    let kept = set_config-stores id c w in
    let answer =
      set_config-answers id' (as_partial (normalize_config (some c))) (set_config id c w).1 in
    (set_config-answers id c w, ap ok (ap normalize_config kept ∙ same), answer ∙ ap ok same)
