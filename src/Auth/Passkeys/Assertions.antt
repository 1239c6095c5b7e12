-- ===== src/Auth/Passkeys/Assertions.antt =====
-- Logins with a passkey.
use drawback_backend.Prelude.{
  ℕ, String, true, false, Option, none, some, ◌≡◌, refl, sym, subst, ◌==◌, ==_iff, ==_refl,
  true_of_not, find_one-holds, find_one-update_found, true_of_not,
}
use drawback_backend.Schema.{Database}
use drawback_backend.Schema.Entities.{User, Credential}
use drawback_backend.World.{World, Result, ok, err, bad_request, ◌>>=◌}
use drawback_backend.World.Realtime.{delete}
use drawback_backend.World.Rules.{
  Ensures, Ensures-gets, Ensures-return, Ensures-throw_if, Ensures-if_found, Ensures-or_throw,
  Ensures-modify_db, Ensures-modify_challenges, Ensures-bind_runs,
}
use drawback_backend.Users.Queries.{find_by_id}
use drawback_backend.Realtime.Connections.{JwtPayload}
use drawback_backend.Auth.{payload_of, increment_session_version}
use drawback_backend.Auth.Sessions.{next_session, issue_run, increment_session_version_lem}
use drawback_backend.Auth.Passkeys.{
  WebAuthn, VerifiedAuthentication, get_challenge, delete_challenge, find_credential, used,
  save_credential, rolled_back, accept_assertion, finish_passkey_login,
}

-- The world after a login: the challenge is gone, the credential has the new counter, and the user's
-- next session has begun.
abbrev pub logged_in : ℕ → VerifiedAuthentication → Credential → User → World → World
logged_in now a c u w = record w {
  db = increment_session_version u.id (save_credential c.id now a.new_counter w.db);
  challenges = delete u.id w.challenges;
}

pub owner_id :
    (c : Credential) (u : User) (db : Database)
    → find_by_id c.user_id db ≡ some u
    → (u.id == c.user_id) ≡ true
unfolding find_by_id
owner_id c u db h = find_one-holds _ db.users u h

pub owner_row :
    (c : Credential) (u : User) (db : Database)
    → find_by_id c.user_id db ≡ some u
    → find_by_id u.id db ≡ some u
unfolding find_by_id
owner_row c u db h =
    subst (λ i. find_by_id i db ≡ some u) (sym ((==_iff u.id c.user_id).0 (owner_id c u db h))) h

pub saved_owner :
    (c now counter : ℕ) (u : User) (db : Database)
    → find_by_id u.id db ≡ some u
    → find_by_id u.id (save_credential c now counter db) ≡ some u
unfolding find_by_id save_credential
saved_owner c now counter u db h = h

pub saved_user :
    (now : ℕ) (c : Credential) (u : User) (a : VerifiedAuthentication) (w : World)
    → find_by_id c.user_id w.db ≡ some u
    → find_by_id c.user_id (logged_in now a c u w).db ≡ some (next_session u)
saved_user now c u a w h =
    subst (λ i. find_by_id i (logged_in now a c u w).db ≡ some (next_session u))
      ((==_iff u.id c.user_id).0 (owner_id c u w.db h))
      (increment_session_version_lem u (save_credential c.id now a.new_counter w.db)
        (saved_owner c.id now a.new_counter u w.db (owner_row c u w.db h)))

module _ (web : WebAuthn) (sign : Option String → JwtPayload → String) (now : ℕ)
    (id response : String) where
  -- The credential is in the table, its user is activated and not blocked and has a challenge, which
  -- the response answers, and its counter has not been rolled back.
  pub record IsAssertion (w w' : World) (t : String) : Type 0 where
    pub credential : Credential
    pub user : User
    pub challenge : String
    pub answer : VerifiedAuthentication
    pub found : find_credential (web.decode id) w.db ≡ some credential
    pub owner : find_by_id credential.user_id w.db ≡ some user
    pub active : user.is_activated ≡ true
    pub unblocked : user.is_blocked ≡ false
    pub asked : get_challenge user.id w ≡ some challenge
    pub answered : web.verify_authentication response challenge credential ≡ some answer
    pub verified : answer.verified ≡ true
    pub fresh : rolled_back credential.counter answer.new_counter ≡ false
    pub token : t ≡ sign none (payload_of (next_session user))
    pub world : w' ≡ logged_in now answer credential user w

  abbrev pub AssertionOutcome : World → Result (Option String) → World → Type 0
  AssertionOutcome w (ok (some token)) w' = IsAssertion w w' token
  AssertionOutcome w (ok none) w' = w' ≡ w
  AssertionOutcome w (err e) w' = w'.db ≡ w.db

  -- A login that gives a token has answered the user's challenge with a credential of the table that
  -- has not been rolled back; the user is activated and not blocked. It takes the challenge away,
  -- stores the credential's new counter and time of use, and begins the session that the token is for.
  -- One that finds no credential changes nothing, and one that raises changes no row.
  pub finish_passkey_login-AssertionOutcome :
      (w : World)
      → AssertionOutcome w
          (finish_passkey_login web sign now id response w).0
          (finish_passkey_login web sign now id response w).1
  unfolding finish_passkey_login accept_assertion delete_challenge
  finish_passkey_login-AssertionOutcome w =
      let run : Ensures (AssertionOutcome w) (finish_passkey_login web sign now id response) w =
        Ensures-gets _ _ (
          Ensures-if_found _ _ _ (λ _. Ensures-return _ refl)
            λ c found. Ensures-gets _ _ (
              Ensures-or_throw _ _ _ (λ _. refl)
                λ u owner.
                  Ensures-throw_if _ _ _ (λ _. refl)
                    λ active.
                      Ensures-throw_if _ _ _ (λ _. refl)
                        λ unblocked. Ensures-gets _ _ (
                          Ensures-or_throw _ _ _ (λ _. refl)
                            λ challenge asked.
                              Ensures-throw_if _ _ _ (λ _. refl)
                                λ _. Ensures-modify_challenges _ _ (
                                  Ensures-or_throw _ _ _ (λ _. refl)
                                    λ answer answered.
                                      Ensures-throw_if _ _ _ (λ _. refl)
                                        λ verified.
                                          Ensures-throw_if _ _ _ (λ _. refl)
                                            λ fresh. Ensures-modify_db _ _ (
                                              Ensures-bind_runs _ _
                                                (issue_run sign _ u (
                                                  saved_owner c.id now answer.new_counter u w.db
                                                    (owner_row c u w.db owner)))
                                                (Ensures-return _ (record {
                                                  credential = c;
                                                  user = u;
                                                  challenge = challenge;
                                                  answer = answer;
                                                  found = found;
                                                  owner = owner;
                                                  active = true_of_not _ active;
                                                  unblocked = unblocked;
                                                  asked = asked;
                                                  answered = answered;
                                                  verified = true_of_not _ verified;
                                                  fresh = fresh;
                                                  token = refl;
                                                  world = refl;
                                                }))))))) in
      run.at

  saved_row :
      (c : Credential) (u : User) (a : VerifiedAuthentication) (w : World)
      → find_credential (web.decode id) w.db ≡ some c
      → find_credential (web.decode id) (logged_in now a c u w).db ≡ some (used now a.new_counter c)
  unfolding find_credential save_credential increment_session_version
  saved_row c u a w h =
      find_one-update_found _ (λ x. x.id == c.id) (used now a.new_counter) w.db.credentials c
        (λ x. refl) (==_refl c.id) h

  no_challenge :
      (c : Credential) (u : User) (a : VerifiedAuthentication) (w : World)
      → get_challenge (next_session u).id (logged_in now a c u w) ≡ none
  unfolding get_challenge
  no_challenge c u a w = rw (==_refl u.id) refl

  refused_after :
      (w w' : World) (t : String)
      → IsAssertion w w' t
      → (later : ℕ) (response' : String)
      → finish_passkey_login web sign later id response' w'
        ≡ (err (bad_request "No challenge found or challenge expired. Please try again."), w')
  unfolding finish_passkey_login ◌>>=◌
  refused_after w w' t h later response' =
      let row = saved_row h.credential h.user h.answer w h.found in
      let user = saved_user now h.credential h.user h.answer w h.owner in
      let gone = no_challenge h.credential h.user h.answer w in
      rw (h.world, row, user, h.active, h.unblocked, gone, ◌>>=◌) refl

-- A challenge serves for one login: after a login with a passkey has given a token, another with the
-- same passkey is refused for want of a challenge, whatever its response, and changes nothing.
pub finish_passkey_login-once :
    (web : WebAuthn) (sign : Option String → JwtPayload → String) (now later : ℕ)
    (id response response' token : String) (w : World)
    → (finish_passkey_login web sign now id response w).0 ≡ ok (some token)
    → let w' = (finish_passkey_login web sign now id response w).1 in
      finish_passkey_login web sign later id response' w'
      ≡ (err (bad_request "No challenge found or challenge expired. Please try again."), w')
finish_passkey_login-once web sign now later id response response' token w h =
    let outcome = finish_passkey_login-AssertionOutcome web sign now id response w in
    refused_after web sign now id response w _ token
      (subst
        (λ r.
          AssertionOutcome web sign now id response w r
            (finish_passkey_login web sign now id response w).1)
        h outcome)
      later response'
