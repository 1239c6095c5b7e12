-- ===== src/Auth/Passkeys/Success.antt =====
-- A login with a passkey from its start to the guard of the next request.
use drawback_backend.Prelude.{
  ℕ, String, Bool, true, false, List, [], ◌∷◌, Option, none, some, ◌≡◌, refl, sym, subst, ◌+◌, ◌==◌,
  ==_iff, ==_refl, any_of_find_one, non_empty, arith, is_there, any, select, Bool-cases, inl, inr,
}
use drawback_backend.Schema.{Database}
use drawback_backend.Schema.Entities.{User, Credential}
use drawback_backend.World.{World, ok, ◌>>=◌}
use drawback_backend.World.Realtime.{put, delete}
use drawback_backend.Users.Queries.{find_by_id}
use drawback_backend.Realtime.Connections.{JwtPayload}
use drawback_backend.Auth.{find_by_email, payload_of, validate}
use drawback_backend.Auth.Sessions.{next_session, issue_run, validate-accepts}
use drawback_backend.Auth.Passkeys.{
  WebAuthn, VerifiedAuthentication, store_challenge, get_challenge, delete_challenge,
  find_credential, rolled_back, accept_assertion, finish_passkey_login, may_log_in,
  start_passkey_login, save_credential,
}
use drawback_backend.Auth.Passkeys.Assertions.{
  logged_in, owner_id, owner_row, saved_owner, saved_user,
}

may_log_in-holds :
    (u : User) (p : Credential → Bool) (cs : List Credential)
    → u.is_activated ≡ true
    → u.is_blocked ≡ false
    → any p cs ≡ true
    → may_log_in u (select p cs) ≡ true
unfolding may_log_in any select
may_log_in-holds u p [] active unblocked h = ground arith
may_log_in-holds u p (c ∷ cs) active unblocked h = elim (Bool-cases (p c)) [
  | inl e ↦ rw (e, active, unblocked) refl
  | inr e ↦ rw e (may_log_in-holds u p cs active unblocked (ground (arith, h, e)))
]

has_passkey :
    (bytes : String) (c : Credential) (u : User) (db : Database)
    → find_credential bytes db ≡ some c
    → (u.id == c.user_id) ≡ true
    → any (λ x. x.user_id == u.id) db.credentials ≡ true
unfolding find_credential
has_passkey bytes c u db found h =
    any_of_find_one _ _ db.credentials c found
      (subst (λ i. (c.user_id == i) ≡ true) (sym ((==_iff u.id c.user_id).0 h)) (==_refl c.user_id))

-- The world after the start.
abbrev asked : String → User → World → World
asked challenge u w = record w { challenges = put u.id challenge w.challenges }

module _ (web : WebAuthn) (to_lower_case : String → String) (challenge email : String) (w : World)
    (u : User) (c : Credential) (bytes : String) (active : u.is_activated ≡ true)
    (unblocked : u.is_blocked ≡ false) (found : find_credential bytes w.db ≡ some c)
    (owner : find_by_id c.user_id w.db ≡ some u)
    (rp_id : is_there (non_empty web.rp_id) ≡ true) where
  start_run :
      find_by_email to_lower_case email w.db ≡ some u
      → (start_passkey_login web to_lower_case challenge email w).1 ≡ asked challenge u w
  unfolding start_passkey_login store_challenge ◌>>=◌
  start_run by_email =
      let mine = has_passkey bytes c u w.db found (owner_id c u w.db owner) in
      let allowed = may_log_in-holds u _ w.db.credentials active unblocked mine in
      rw (by_email, allowed, rp_id, ◌>>=◌) refl

module _ (web : WebAuthn) (sign : Option String → JwtPayload → String) (now : ℕ)
    (id response challenge : String) (w : World) (u : User) (c : Credential)
    (a : VerifiedAuthentication) (active : u.is_activated ≡ true) (unblocked : u.is_blocked ≡ false)
    (found : find_credential (web.decode id) w.db ≡ some c)
    (owner : find_by_id c.user_id w.db ≡ some u)
    (challenged : get_challenge u.id w ≡ some challenge)
    (rp_id : is_there (non_empty web.rp_id) ≡ true)
    (origin : is_there (non_empty web.origin) ≡ true)
    (answered : web.verify_authentication response challenge c ≡ some a)
    (verified : a.verified ≡ true) (fresh : rolled_back c.counter a.new_counter ≡ false) where
  accept_run :
      accept_assertion web sign now response challenge c u w
      ≡ (ok (some (sign none (payload_of (next_session u)))), logged_in now a c u w)
  unfolding accept_assertion delete_challenge ◌>>=◌
  accept_run =
      let issued =
        issue_run sign
          (record w {
            db = save_credential c.id now a.new_counter w.db;
            challenges = delete u.id w.challenges;
          })
          u (saved_owner c.id now a.new_counter u w.db (owner_row c u w.db owner)) in
      rw (answered, verified, fresh, issued, ◌>>=◌) refl

  finish_run :
      finish_passkey_login web sign now id response w
      ≡ (ok (some (sign none (payload_of (next_session u)))), logged_in now a c u w)
  unfolding finish_passkey_login accept_assertion ◌>>=◌
  finish_run = rw (found, owner, active, unblocked, challenged, rp_id, origin, ◌>>=◌) accept_run

  accepted :
      validate (payload_of (next_session u)) (logged_in now a c u w)
      ≡ (ok (next_session u), logged_in now a c u w)
  accepted =
      let kept =
        subst (λ i. find_by_id i (logged_in now a c u w).db ≡ some (next_session u))
          (sym ((==_iff u.id c.user_id).0 (owner_id c u w.db owner)))
          (saved_user now c u a w owner) in
      validate-accepts (logged_in now a c u w) (next_session u) (payload_of (next_session u)) kept
        unblocked active (==_refl (u.session_version + 1))

-- An activated and unblocked user who starts a login with a passkey and sends a response that the
-- library verifies, for the challenge of that start and with a counter that has not been rolled back,
-- gets a token, and the guard accepts the payload that is signed in it. This asks that the two names
-- of the configuration are set and that the challenge is no empty text.
pub start-finish_passkey_login :
    (web : WebAuthn) (to_lower_case : String → String) (sign : Option String → JwtPayload → String)
    (now : ℕ) (id response challenge email : String) (w : World) (u : User) (c : Credential)
    (a : VerifiedAuthentication)
    → find_by_email to_lower_case email w.db ≡ some u
    → u.is_activated ≡ true
    → u.is_blocked ≡ false
    → find_credential (web.decode id) w.db ≡ some c
    → find_by_id c.user_id w.db ≡ some u
    → non_empty (some challenge) ≡ some challenge
    → is_there (non_empty web.rp_id) ≡ true
    → is_there (non_empty web.origin) ≡ true
    → web.verify_authentication response challenge c ≡ some a
    → a.verified ≡ true
    → rolled_back c.counter a.new_counter ≡ false
    → let w' = (start_passkey_login web to_lower_case challenge email w).1 in
      let r = finish_passkey_login web sign now id response w' in
      (r.0 ≡ ok (some (sign none (payload_of (next_session u)))))
      × (validate (payload_of (next_session u)) r.1 ≡ (ok (next_session u), r.1))
unfolding get_challenge
start-finish_passkey_login web to_lower_case sign now id response challenge email w u c a by_email
      active unblocked found owner given rp_id origin answered verified fresh =
    let started =
      start_run web to_lower_case challenge email w u c (web.decode id) active unblocked found owner
        rp_id by_email in
    let stored : get_challenge u.id (asked challenge u w) ≡ some challenge =
      rw (==_refl u.id) given in
    let run =
      finish_run web sign now id response challenge (asked challenge u w) u c a active unblocked
        found owner stored rp_id origin answered verified fresh in
    let valid =
      accepted web sign now id response challenge (asked challenge u w) u c a active unblocked found
        owner stored rp_id origin answered verified fresh in
    rw (started, run) (refl, valid)
