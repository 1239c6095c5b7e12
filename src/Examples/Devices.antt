-- ===== src/Examples/Devices.antt =====
-- The theorems on devices, the configuration, the discovery game and the work of admins.
use drawback_backend.Prelude.{
  ℕ, String, true, false, [], ◌∷◌, Option, none, some, ◌≡◌, refl, ◌==◌, ◌≤◌, arith, count, any,
  find_one, map, select, sort_desc,
}
use drawback_backend.Schema.Enums.{PushProvider, PushPlatform}
use drawback_backend.Schema.Entities.{User, PushToken}
use drawback_backend.World.{World, ok, err, unauthorized}
use drawback_backend.Users.Queries.{find_by_id}
use drawback_backend.Users.Discovery.{get_random_discovery_user}
use drawback_backend.Users.Found.{DiscoveryOutcome, get_random_discovery_user-DiscoveryOutcome}
use drawback_backend.Realtime.Connections.{handle_connection, refuse_connection}
use drawback_backend.Auth.{validate}
use drawback_backend.Config.{PartialConfig, normalize_config, as_partial, get_config, set_config}
use drawback_backend.Config.Settings.{get_config-set_config}
use drawback_backend.Notifications.{
  Registration, register_token, has_token, belongs_to, request_received, Message, Attempts, send_to,
}
use drawback_backend.Notifications.Tokens.{IsUnique, register_token-IsUnique}
use drawback_backend.Notifications.Current.{IsCurrent}
use drawback_backend.Notifications.Delivery.{DeliveryOutcome, send_to-DeliveryOutcome}
use drawback_backend.Admin.{
  UserFilter, matches, is_one_of, ban_users, unban_users, banned, unbanned,
}
use drawback_backend.Admin.Bans.{ban_users-refuses, unban_users-accepts}
use drawback_backend.Admin.Export.{Texts, headers, row_of, export_users}
use drawback_backend.Admin.Reader.{table_of}
use drawback_backend.Admin.Csv.{map_ok, export_users-reads}
use drawback_backend.Examples.{ada, bob, no_rows, tables, empty_world, busy_world, ada_token}

abbrev phone : PushToken
phone = record {
  id = 1;
  user_id = 2;
  provider = PushProvider.fcm;
  token = "phone";
  platform = PushPlatform.android;
  device_id = "device";
  active = true;
  deactivation_reason = none;
  last_seen_at = some 10;
  created_at = 10;
  updated_at = 10;
}

abbrev with_phone : World
with_phone = record empty_world { db = record no_rows { push_tokens = phone ∷ [] } }

abbrev registration : Registration
registration = record {
  provider = PushProvider.fcm;
  token = "phone";
  platform = PushPlatform.ios;
  device_id = "device";
}

one_phone : (p : PushProvider) (s : String) → count (has_token p s) (phone ∷ []) ≤ 1
unfolding count
one_phone PushProvider.fcm s = ground arith

one_owner : (p : PushProvider) (u : ℕ) → count (belongs_to p u) (phone ∷ []) ≤ 1
unfolding count
one_owner PushProvider.fcm u = ground arith

one_id : (i : ℕ) → count (λ (t : PushToken). t.id == i) (phone ∷ []) ≤ 1
unfolding count
one_id i = ground arith

phone-IsUnique : IsUnique (phone ∷ [])
phone-IsUnique = record { ids = one_id; tokens = one_phone; users = one_owner }

fresh_id : any (λ (t : PushToken). t.id == 2) (phone ∷ []) ≡ false
unfolding any
fresh_id = refl

register_token-IsUnique_example :
    IsUnique (register_token 2 100 1 registration with_phone).1.db.push_tokens
register_token-IsUnique_example =
    register_token-IsUnique 2 100 1 registration with_phone phone-IsUnique fresh_id

abbrev answers : Attempts
answers n = some "messaging/internal-error"

abbrev request_message : String → Message
request_message token = record {
  token = token;
  title = "DrawBack Request";
  body = "ada sent you a draw request";
  content = request_received 1 "ada" "m1";
}

send_to-DeliveryOutcome_example :
    let r = send_to answers 2 request_message with_phone in
    (o : Option PushToken) × IsCurrent 2 with_phone.db o
    × DeliveryOutcome answers request_message o with_phone r.0 r.1
send_to-DeliveryOutcome_example = send_to-DeliveryOutcome answers 2 request_message with_phone

abbrev given : PartialConfig
given = record { ads_provider = some "ads"; temporary_discovery_access_duration_minutes = some 0 }

get_config-set_config_example :
    let w' = (set_config 1 given empty_world).1 in
    ((set_config 1 given empty_world).0 ≡ ok (normalize_config (some given)))
    × ((get_config w').0 ≡ ok (normalize_config (some given)))
    × ((set_config 2 (as_partial (normalize_config (some given))) w').0
        ≡ ok (normalize_config (some given)))
get_config-set_config_example = get_config-set_config 1 2 given empty_world

abbrev player : User
player = record bob { appear_in_discovery_game = true; discovery_image_url = some "image" }

abbrev game : World
game = record empty_world { db = record no_rows { users = ada ∷ player ∷ [] } }

get_random_discovery_user-DiscoveryOutcome_example :
    (o : Option User) × (get_random_discovery_user 7 ada game ≡ (ok o, game))
    × DiscoveryOutcome game.db 1 o
get_random_discovery_user-DiscoveryOutcome_example =
    get_random_discovery_user-DiscoveryOutcome 7 ada game

ada_row : find_by_id 1 tables ≡ some ada
unfolding find_by_id find_one
ada_row = refl

both_named : is_one_of (2 ∷ 1 ∷ []) ada ≡ true
unfolding any
both_named = refl

ban_users-refuses_example :
    let w' = (ban_users 1 50 bob (2 ∷ 1 ∷ []) (some "spam") busy_world).1 in
    (validate ada_token w' ≡ (err (unauthorized "Account has been blocked"), w'))
    × (handle_connection 55 13 (some ada_token) "::1" "app" w'
        ≡ refuse_connection 13 "Account has been blocked" w')
ban_users-refuses_example =
    ban_users-refuses 1 50 55 13 bob (2 ∷ 1 ∷ []) (some "spam") "::1" "app" ada_token ada busy_world
      ada_row both_named refl

unban_users-accepts_example :
    let w' = (ban_users 1 50 bob (2 ∷ 1 ∷ []) (some "spam") busy_world).1 in
    let w'' = (unban_users 2 60 bob (2 ∷ 1 ∷ []) w').1 in
    validate ada_token w'' ≡ (ok (unbanned (banned 50 (some "spam") ada)), w'')
unban_users-accepts_example =
    unban_users-accepts 1 2 50 60 bob bob (2 ∷ 1 ∷ []) (2 ∷ 1 ∷ []) (some "spam") ada_token ada
      busy_world ada_row both_named both_named refl refl

abbrev texts : Texts
texts = record { uuid = λ n. "id"; iso = λ n. "1970-01-01"; updated_at = λ u. "now, \"then\"" }

abbrev everyone : UserFilter
everyone = record {
  mode = none;
  appear_in_searches = none;
  appear_in_discovery_game = none;
  is_blocked = some false;
  is_activated = none;
}

export_users-reads_example :
    map_ok table_of (export_users texts everyone busy_world).0
    ≡ ok (
        headers
        ∷ map
            (row_of texts)
            (sort_desc (λ (u : User). u.created_at) (select (matches everyone) (ada ∷ bob ∷ []))))
export_users-reads_example = export_users-reads texts everyone busy_world
