-- ===== src/Auth/Passkeys/Limit.antt =====
-- The number of passkeys of a user, over the calls on passkeys.
use drawback_backend.Prelude.{
  ℕ, String, false, List, [], ◌∷◌, Option, ◌≡◌, refl, subst, ◌≤◌, ◌==◌, ==_iff, ==_refl, ◌&&◌, ◌||◌,
  not, count, any, drop, select, sort_desc, count-remove_where, count-remove_where-le, count-select,
  count-sort_desc, count-drop, count_mono, count_congr, count-append, count-update_where,
  Bool-cases, inl, inr, arith,
}
use drawback_backend.Schema.{Database}
use drawback_backend.Schema.Entities.{Credential}
use drawback_backend.World.{World, modify_db}
use drawback_backend.World.Preserves.{Preserves, preserves, modify_db-Preserves, bind-Preserves}
use drawback_backend.Realtime.Connections.{JwtPayload}
use drawback_backend.Auth.{issue_single_session_access_token, increment_session_version}
use drawback_backend.Auth.Passkeys.{
  WebAuthn, is_among, credentials_of, enforce_limit, delete_unused, insert_credential,
  register_credential, start_passkey_registration, finish_passkey_registration, start_passkey_login,
  accept_assertion, finish_passkey_login, delete_credential, remove_credential, save_credential,
  store_challenge, delete_challenge, used,
}

abbrev pub AtMostFive : Database → Type 0
AtMostFive db = (u : ℕ) → count (λ c. c.user_id == u) db.credentials ≤ 5

-- Every row is among itself.
none_outside : (cs : List Credential) → count (λ c. not (is_among cs c)) cs ≡ 0
unfolding any count
none_outside [] = refl
none_outside (d ∷ cs) =
    let rest = none_outside cs in
    let fewer =
      count_mono (λ c. not (is_among cs c)) (λ c. not ((d.id == c.id) || is_among cs c)) cs
        (λ c h. ground (arith, h)) in
    let here = ==_refl d.id in ground (arith, rest, fewer, here)

enforce_limit-bound :
    (u : ℕ) (db : Database) → count (λ c. c.user_id == u) (enforce_limit u db).credentials ≤ 5
unfolding enforce_limit credentials_of
enforce_limit-bound u db =
    let mine = λ (c : Credential). c.user_id == u in
    let newest = sort_desc (λ (c : Credential). c.created_at) (select mine db.credentials) in
    let kept = λ (c : Credential). not (is_among (drop 5 newest) c) in
    let left = count-remove_where (is_among (drop 5 newest)) mine db.credentials in
    let swapped =
      count_congr (λ c. kept c && mine c) (λ c. mine c && kept c) db.credentials
        (λ c. ground arith) in
    let selected = count-select mine kept db.credentials in
    let sorted =
      count-sort_desc (λ (c : Credential). c.created_at) kept (select mine db.credentials) in
    let dropped = count-drop kept 5 newest in
    let outside = none_outside (drop 5 newest) in
    omega (arith, left, swapped, selected, sorted, dropped, outside)

delete_unused-le :
    (now : ℕ) (new : Credential) (u : ℕ) (db : Database)
    → count (λ c. c.user_id == u) (delete_unused now new db).credentials
      ≤ count (λ c. c.user_id == u) db.credentials
unfolding delete_unused
delete_unused-le now new u db = count-remove_where-le _ _ db.credentials

enforce_limit-le :
    (v u : ℕ) (db : Database)
    → count (λ c. c.user_id == u) (enforce_limit v db).credentials
      ≤ count (λ c. c.user_id == u) db.credentials
unfolding enforce_limit
enforce_limit-le v u db = count-remove_where-le _ _ db.credentials

register_other :
    (now : ℕ) (new : Credential) (db : Database) (u : ℕ)
    → (new.user_id == u) ≡ false
    → count (λ c. c.user_id == u) db.credentials ≤ 5
    → count (λ c. c.user_id == u) (register_credential now new db).credentials ≤ 5
unfolding register_credential insert_credential count
register_other now new db u other h =
    let added = count-append (λ (c : Credential). c.user_id == u) db.credentials (new ∷ []) in
    let unused = delete_unused-le now new u (insert_credential new db) in
    let limited =
      enforce_limit-le new.user_id u (delete_unused now new (insert_credential new db)) in
    ground (arith, added, unused, limited, other, h)

register_credential-AtMostFive :
    (now : ℕ) (new : Credential) (db : Database)
    → AtMostFive db
    → AtMostFive (register_credential now new db)
unfolding register_credential
register_credential-AtMostFive now new db h u = elim (Bool-cases (new.user_id == u)) [
  | inl same ↦
      subst (λ v. count (λ c. c.user_id == v) (register_credential now new db).credentials ≤ 5)
        ((==_iff new.user_id u).0 same) (enforce_limit-bound new.user_id _)
  | inr other ↦ register_other now new db u other (h u)
]

save_credential-AtMostFive :
    (id now counter : ℕ) (db : Database)
    → AtMostFive db
    → AtMostFive (save_credential id now counter db)
unfolding save_credential
save_credential-AtMostFive id now counter db h u =
    let before = h u in
    let same =
      count-update_where (λ c. c.user_id == u) (λ c. c.id == id) (used now counter) db.credentials
        (λ c. refl) in
    omega (arith, before, same)

remove_credential-AtMostFive :
    (id : ℕ) (db : Database) → AtMostFive db → AtMostFive (remove_credential id db)
unfolding remove_credential
remove_credential-AtMostFive id db h u =
    let before = h u in
    let fewer = count-remove_where-le (λ c. c.id == id) (λ c. c.user_id == u) db.credentials in
    omega (arith, before, fewer)

register-Preserves :
    (now : ℕ) (new : Credential) → Preserves AtMostFive (modify_db (register_credential now new))
register-Preserves now new =
    modify_db-Preserves AtMostFive _ (register_credential-AtMostFive now new)

save-Preserves :
    (id now counter : ℕ) → Preserves AtMostFive (modify_db (save_credential id now counter))
save-Preserves id now counter =
    modify_db-Preserves AtMostFive _ (save_credential-AtMostFive id now counter)

remove-Preserves : (id : ℕ) → Preserves AtMostFive (modify_db (remove_credential id))
remove-Preserves id = modify_db-Preserves AtMostFive _ (remove_credential-AtMostFive id)

issue-Preserves :
    (sign : Option String → JwtPayload → String) (u : ℕ)
    → Preserves AtMostFive (issue_single_session_access_token sign u)
unfolding issue_single_session_access_token increment_session_version
issue-Preserves sign u =
    bind-Preserves AtMostFive _ _
      (modify_db-Preserves AtMostFive (increment_session_version u) (λ db h. h))
      (λ _. search preserves depth 10)

start_registration-Preserves :
    (web : WebAuthn) (challenge : String) (u : ℕ)
    → Preserves AtMostFive (start_passkey_registration web challenge u)
unfolding start_passkey_registration store_challenge
start_registration-Preserves web challenge u = search preserves depth 20

finish_registration-Preserves :
    (web : WebAuthn) (id now u : ℕ) (response : String) (device platform : Option String)
    → Preserves AtMostFive (finish_passkey_registration web id now u response device platform)
unfolding finish_passkey_registration delete_challenge
finish_registration-Preserves web id now u response device platform =
    search (preserves, register-Preserves) depth 30

start_login-Preserves :
    (web : WebAuthn) (to_lower_case : String → String) (challenge email : String)
    → Preserves AtMostFive (start_passkey_login web to_lower_case challenge email)
unfolding start_passkey_login store_challenge
start_login-Preserves web to_lower_case challenge email = search preserves depth 20

finish_login-Preserves :
    (web : WebAuthn) (sign : Option String → JwtPayload → String) (now : ℕ) (id response : String)
    → Preserves AtMostFive (finish_passkey_login web sign now id response)
unfolding finish_passkey_login accept_assertion delete_challenge
finish_login-Preserves web sign now id response =
    search (preserves, save-Preserves, issue-Preserves) depth 36

delete-Preserves : (u id : ℕ) → Preserves AtMostFive (delete_credential u id)
unfolding delete_credential
delete-Preserves u id = search (preserves, remove-Preserves) depth 20

-- The calls on passkeys, with the challenges and the answers of the library.
pub data PasskeyCall : Type 0 where
  start_registration : WebAuthn → String → (user_id : ℕ) → PasskeyCall
  finish_registration :
      WebAuthn → (id now user_id : ℕ) → String → Option String → Option String → PasskeyCall
  start_login : WebAuthn → (String → String) → String → String → PasskeyCall
  finish_login :
      WebAuthn → (Option String → JwtPayload → String) → (now : ℕ) → String → String → PasskeyCall
  remove : (user_id id : ℕ) → PasskeyCall

abbrev pub perform : PasskeyCall → World → World
perform (start_registration web challenge user_id) w =
    (start_passkey_registration web challenge user_id w).1
perform (finish_registration web id now user_id response device platform) w =
    (finish_passkey_registration web id now user_id response device platform w).1
perform (start_login web to_lower_case challenge email) w =
    (start_passkey_login web to_lower_case challenge email w).1
perform (finish_login web sign now id response) w =
    (finish_passkey_login web sign now id response w).1
perform (remove user_id id) w = (delete_credential user_id id w).1

abbrev pub perform_all : List PasskeyCall → World → World
perform_all [] w = w
perform_all (c ∷ cs) w = perform_all cs (perform c w)

perform-AtMostFive : (c : PasskeyCall) (w : World) → AtMostFive w.db → AtMostFive (perform c w).db
perform-AtMostFive (start_registration web challenge user_id) w =
    (start_registration-Preserves web challenge user_id).at w
perform-AtMostFive (finish_registration web id now user_id response device platform) w =
    (finish_registration-Preserves web id now user_id response device platform).at w
perform-AtMostFive (start_login web to_lower_case challenge email) w =
    (start_login-Preserves web to_lower_case challenge email).at w
perform-AtMostFive (finish_login web sign now id response) w =
    (finish_login-Preserves web sign now id response).at w
perform-AtMostFive (remove user_id id) w = (delete-Preserves user_id id).at w

-- Whatever calls are made on passkeys, in any order and with any outcome, no user has more than five,
-- if that was so before.
pub perform_all-AtMostFive :
    (cs : List PasskeyCall) (w : World) → AtMostFive w.db → AtMostFive (perform_all cs w).db
perform_all-AtMostFive [] w h = h
perform_all-AtMostFive (c ∷ cs) w h =
    perform_all-AtMostFive cs (perform c w) (perform-AtMostFive c w h)
