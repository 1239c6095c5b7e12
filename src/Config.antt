-- ===== src/Config.antt =====
-- app-config/app-config.service.ts. A partial configuration has `none` for a field that is missing or
-- of another type, or a duration that is no natural number.
use drawback_backend.Prelude.{
  ℕ, String, List, [], ◌∷◌, ◌++◌, Option, none, some, ◌==◌, ltb, if◌then◌else◌, non_zero, head_of,
  bind_option, update_where,
}
pub mod Settings
use drawback_backend.Schema.{Database}
use drawback_backend.Schema.Entities.{AppConfig, AppConfigData, UserConfigOverrides, User}
use drawback_backend.World.{
  World, Exec, return, gets, modify_db, or_throw, not_found, if_found, ◌>>=◌, ◌>>◌,
}
use drawback_backend.Users.Queries.{find_by_id}
use drawback_backend.Users.Profile.{save_user}

pub record PartialConfig : Type 0 where
  pub ads_provider : Option String
  pub temporary_discovery_access_duration_minutes : Option ℕ

abbrev pub default_config : AppConfigData
default_config = record { ads_provider = ""; temporary_discovery_access_duration_minutes = 5 }

abbrev pub provider_of : Option String → String
provider_of none = default_config.ads_provider
provider_of (some p) = p

-- A positive integer, or the default.
abbrev pub duration_of : Option ℕ → ℕ
duration_of none = default_config.temporary_discovery_access_duration_minutes
duration_of (some n) =
    if ltb 0 n then n else default_config.temporary_discovery_access_duration_minutes

unfoldable pub normalize_config : Option PartialConfig → AppConfigData
normalize_config none = default_config
normalize_config (some c) = record {
  ads_provider = provider_of c.ads_provider;
  temporary_discovery_access_duration_minutes =
      duration_of c.temporary_discovery_access_duration_minutes;
}

-- A full configuration is a partial one.
abbrev pub as_partial : AppConfigData → PartialConfig
as_partial c = record {
  ads_provider = some c.ads_provider;
  temporary_discovery_access_duration_minutes = some c.temporary_discovery_access_duration_minutes;
}

abbrev pub stored : Option AppConfig → Option PartialConfig
stored none = none
stored (some r) = some (as_partial r.config)

unfoldable pub get_config : Exec AppConfigData
get_config = gets (λ w. normalize_config (stored (head_of w.db.app_configs)))

unfoldable pub insert_config : AppConfig → Database → Database
insert_config r db = record db { app_configs = db.app_configs ++ r ∷ [] }

unfoldable pub write_config : ℕ → AppConfigData → Database → Database
write_config id config db = record db {
  app_configs = update_where (λ r. r.id == id) (λ r. record r { config = config }) db.app_configs;
}

-- The first row is rewritten; `id` is that of a row that is made where there is none.
unfoldable pub set_config : ℕ → PartialConfig → Exec AppConfigData
set_config id given = do
  first ← gets (λ w. head_of w.db.app_configs)
  if_found first
      (modify_db (insert_config (record { id = id; config = normalize_config (some given) })))
      λ r. modify_db (write_config r.id (normalize_config (some given)))
  return (normalize_config (some given))

unfoldable pub get_user_config_overrides : ℕ → Exec (Option UserConfigOverrides)
get_user_config_overrides user_id = do
  found ← gets (λ w. find_by_id user_id w.db)
  user ← or_throw found (not_found "User not found")
  return user.config_overrides

unfoldable pub set_user_config_overrides :
    ℕ → Option UserConfigOverrides → Exec (Option UserConfigOverrides)
set_user_config_overrides user_id overrides = do
  found ← gets (λ w. find_by_id user_id w.db)
  user ← or_throw found (not_found "User not found")
  modify_db (save_user (record user { config_overrides = overrides }))
  return overrides
