-- ===== src/Auth/Sessions.antt =====
-- A login, and what is left of the sessions before it.
use drawback_backend.Prelude.{
  List, [], ◌∷◌, select, any, not, ◌&&◌, ◌||◌, str_eq, any-select, Bool-cases, inl, inr, ap,
  false_of_not, arith, ℕ, String, Bool, true, false, Option, none, some, ◌≡◌, refl, sym, subst, ◌+◌,
  ◌==◌, ==_iff, true_of_not, find_one-update_where,
}
use drawback_backend.Schema.{Database}
use drawback_backend.Schema.Entities.{User, Credential}
use drawback_backend.World.{World, Result, ok, err, Exception, unauthorized, forbidden, ◌>>=◌}
use drawback_backend.World.Rules.{
  Ensures, Ensures-gets, Ensures-return, Ensures-throw_if, Ensures-if_found, Ensures-if,
  Ensures-bind_runs,
}
use drawback_backend.Users.Queries.{find_by_id}
use drawback_backend.Realtime.Connections.{
  JwtPayload, handle_connection, refuse_connection, check_user,
}
use drawback_backend.Auth.{
  is_device, is_empty, can_add_passkey, find_by_email, payload_of, increment_session_version,
  issue_single_session_access_token, Login, log_in, login, validate,
}

-- The user in the next session.
abbrev pub next_session : User → User
next_session u = record u { session_version = u.session_version + 1 }

pub increment_session_version_lem :
    (u : User) (db : Database)
    → find_by_id u.id db ≡ some u
    → find_by_id u.id (increment_session_version u.id db) ≡ some (next_session u)
unfolding increment_session_version find_by_id
increment_session_version_lem u db h = find_one-update_where _ next_session db.users u (λ y e. e) h

pub issue_run :
    (sign : Option String → JwtPayload → String) (w : World) (u : User)
    → find_by_id u.id w.db ≡ some u
    → issue_single_session_access_token sign u.id w ≡ (
      ok (sign none (payload_of (next_session u))),
      record w { db = increment_session_version u.id w.db },
    )
unfolding issue_single_session_access_token ◌>>=◌
issue_run sign w u h = rw (increment_session_version_lem u w.db h, ◌>>=◌) refl

after_issue :
    (w : World) (u : User) (p : JwtPayload)
    → find_by_id u.id w.db ≡ some u
    → p.sub ≡ u.id
    → find_by_id p.sub (increment_session_version u.id w.db) ≡ some (next_session u)
after_issue w u p h sub =
    subst (λ i. find_by_id i (increment_session_version u.id w.db) ≡ some (next_session u))
      (sym sub) (increment_session_version_lem u w.db h)

module _ (w : World) (u : User) (p : JwtPayload) (found : find_by_id p.sub w.db ≡ some u)
    (free : u.is_blocked ≡ false) where
  pub validate-accepts :
      u.is_activated ≡ true
      → (p.session_version == u.session_version) ≡ true
      → validate p w ≡ (ok u, w)
  unfolding validate ◌>>=◌
  validate-accepts act v = rw (found, act, free, v, ◌>>=◌) refl

  validate-refuses :
      u.is_activated ≡ true
      → (p.session_version == u.session_version) ≡ false
      → validate p w ≡ (err (unauthorized "Session expired. Please log in again."), w)
  unfolding validate ◌>>=◌
  validate-refuses act v = rw (found, act, free, v, ◌>>=◌) refl

  handle_connection-refuses :
      (p.session_version == u.session_version) ≡ false
      → (now socket : ℕ) (address agent : String)
      → handle_connection now socket (some p) address agent w
        ≡ refuse_connection socket "Session expired. Please log in again." w
  unfolding handle_connection check_user ◌>>=◌
  handle_connection-refuses v now socket address agent = rw (found, free, v, ◌>>=◌) refl

-- The token that is issued for a user who is in the table is for the user's next session, and the
-- guard accepts, from then on, a token of the user with that session's version, if the user is
-- activated and not blocked.
pub issue-accepts :
    (sign : Option String → JwtPayload → String) (w : World) (u : User) (p : JwtPayload)
    → find_by_id u.id w.db ≡ some u
    → u.is_activated ≡ true
    → u.is_blocked ≡ false
    → p.sub ≡ u.id
    → p.session_version ≡ u.session_version + 1
    → let r = issue_single_session_access_token sign u.id w in
      (r.0 ≡ ok (sign none (payload_of (next_session u))))
      × (validate p r.1 ≡ (ok (next_session u), r.1))
issue-accepts sign w u p h act free sub v = rw (issue_run sign w u h) (
  refl,
  validate-accepts _ (next_session u) p (after_issue w u p h sub) free act ((==_iff _ _).1 v),
)

-- After a token has been issued for a user who is in the table and not blocked, a token of the user
-- with any other version than that of the new session is refused: by the guard, as the user is
-- activated, and by the gateway, which drops the socket.
pub issue-refuses :
    (sign : Option String → JwtPayload → String) (w : World) (u : User) (p : JwtPayload)
    → find_by_id u.id w.db ≡ some u
    → u.is_activated ≡ true
    → u.is_blocked ≡ false
    → p.sub ≡ u.id
    → (p.session_version == (u.session_version + 1)) ≡ false
    → (now socket : ℕ) (address agent : String)
    → let w' = (issue_single_session_access_token sign u.id w).1 in
      (validate p w' ≡ (err (unauthorized "Session expired. Please log in again."), w'))
      × (handle_connection now socket (some p) address agent w'
          ≡ refuse_connection socket "Session expired. Please log in again." w')
issue-refuses sign w u p h act free sub v now socket address agent =
    let found = after_issue w u p h sub in
    rw (issue_run sign w u h) (
      validate-refuses _ (next_session u) p found free act v,
      handle_connection-refuses _ (next_session u) p found free v now socket address agent,
    )

-- Whether a device id stands in the way of a passkey for a device, where none or an empty one is any.
abbrev pub is_of : Option String → Option String → Bool
is_of none e = true
is_of (some d) e = str_eq d "" || is_device d e

abbrev pub refusal : Bool → Exception
refusal false = unauthorized "Account not activated. Please check your email."
refusal true = forbidden "Account has been blocked"

is_empty-select :
    (p q : Credential → Bool) (cs : List Credential)
    → ((c : Credential) → q c ≡ p c)
    → is_empty (select p cs) ≡ not (any q cs)
unfolding select any
is_empty-select p q [] h = refl
is_empty-select p q (c ∷ cs) h = ground (arith, h c, is_empty-select p q cs h)

can_add_passkey_lem :
    (device : Option String) (u : ℕ) (cs : List Credential)
    → can_add_passkey device (select (λ c. c.user_id == u) cs)
      ≡ not (any (λ c. c.user_id == u && is_of device c.device_id) cs)
unfolding can_add_passkey
can_add_passkey_lem none u cs = is_empty-select _ _ cs (λ c. ground arith)
can_add_passkey_lem (some d) u cs = elim (Bool-cases (str_eq d "")) [
  | inl e ↦ rw e (is_empty-select _ _ cs (λ c. ground arith))
  | inr e ↦ rw e (ap not (any-select (λ c. c.user_id == u) (λ c. is_device d c.device_id) cs))
]

module _ (to_lower_case : String → String) (compare : String → String → Bool)
    (sign : Option String → JwtPayload → String) (email password : String)
    (device : Option String) where
  -- The user of the address has the password, is activated and is not blocked; the token is of the
  -- user's next session, which the table has begun.
  pub record IsLogin (w w' : World) (l : Login) : Type 0 where
    pub user : User
    pub found : find_by_email to_lower_case email w.db ≡ some user
    pub matches : compare password user.password_hash ≡ true
    pub active : user.is_activated ≡ true
    pub unblocked : user.is_blocked ≡ false
    pub token : l.access_token ≡ sign none (payload_of (next_session user))
    pub passkey :
        l.can_add_passkey
        ≡ not (any (λ c. c.user_id == user.id && is_of device c.device_id) w.db.credentials)
    pub world : w' ≡ record w { db = increment_session_version user.id w.db }

  -- No user of the address has the password.
  pub data IsUnknown (w : World) : Type 0 where
    nobody : find_by_email to_lower_case email w.db ≡ none → IsUnknown w
    mismatch :
        (u : User)
        → find_by_email to_lower_case email w.db ≡ some u
        → compare password u.password_hash ≡ false
        → IsUnknown w

  -- The user of the address has the password, but is not activated or is blocked.
  pub record IsBarred (w : World) (e : Exception) : Type 0 where
    pub user : User
    pub found : find_by_email to_lower_case email w.db ≡ some user
    pub matches : compare password user.password_hash ≡ true
    pub reason : e ≡ refusal user.is_activated
    pub barred : (user.is_activated && not user.is_blocked) ≡ false

  abbrev pub LoginOutcome : World → Result (Option Login) → World → Type 0
  LoginOutcome w (ok (some l)) w' = IsLogin w w' l
  LoginOutcome w (ok none) w' = IsUnknown w × (w' ≡ w)
  LoginOutcome w (err e) w' = IsBarred w e × (w' ≡ w)

  is_login :
      (w : World) (u : User)
      → find_by_email to_lower_case email w.db ≡ some u
      → compare password u.password_hash ≡ true
      → u.is_activated ≡ true
      → u.is_blocked ≡ false
      → IsLogin w
          (record w { db = increment_session_version u.id w.db })
          (record {
            access_token = sign none (payload_of (next_session u));
            can_add_passkey =
                can_add_passkey device (select (λ c. c.user_id == u.id) w.db.credentials);
          })
  is_login w u e m a b = record {
    user = u;
    found = e;
    matches = m;
    active = a;
    unblocked = b;
    token = refl;
    passkey = can_add_passkey_lem device u.id w.db.credentials;
    world = refl;
  }

  is_barred :
      (w : World) (u : User) (x : Exception)
      → find_by_email to_lower_case email w.db ≡ some u
      → compare password u.password_hash ≡ true
      → x ≡ refusal u.is_activated
      → (u.is_activated && not u.is_blocked) ≡ false
      → IsBarred w x
  is_barred w u x e m r b = record { user = u; found = e; matches = m; reason = r; barred = b }

  after_checks :
      (w : World) (u : User)
      → find_by_id u.id w.db ≡ some u
      → find_by_email to_lower_case email w.db ≡ some u
      → Ensures (LoginOutcome w) (log_in compare sign password device u) w
  unfolding log_in increment_session_version
  after_checks w u here e =
      Ensures-if _ _ _
        (λ wrong. Ensures-return _ (IsUnknown.mismatch u e (false_of_not _ wrong), refl))
        λ m.
          Ensures-throw_if _ _ _
            (λ a. (
              is_barred w u _ e (true_of_not _ m) (rw (false_of_not _ a) refl)
                  (rw (false_of_not _ a) refl),
              refl,
            ))
            λ a.
              Ensures-throw_if _ _ _
                (λ b. (
                  is_barred w u _ e (true_of_not _ m) (rw (true_of_not _ a) refl)
                      (rw (true_of_not _ a, b) refl),
                  refl,
                ))
                λ b. Ensures-bind_runs _ _ (issue_run sign w u here) (
                  Ensures-gets _ _
                    (Ensures-return _ (is_login w u e (true_of_not _ m) (true_of_not _ a) b)))

  -- Where a user that is found by the address is found by the id too: a login gives a token only for
  -- the user of the address, and only if the password matches and the user is activated and not
  -- blocked; it then begins a new session of the user, changes nothing else, and offers a new passkey
  -- exactly if the user has none, or none of the device that is named. It gives no token without an
  -- exception only if no user of the address has the password, and raises only if that user is not
  -- activated, or else is blocked, which the exception says; either way nothing changes.
  pub login-LoginOutcome :
      (w : World)
      → ((u : User)
          → find_by_email to_lower_case email w.db ≡ some u
          → find_by_id u.id w.db ≡ some u)
      → LoginOutcome w
          (login to_lower_case compare sign email password device w).0
          (login to_lower_case compare sign email password device w).1
  unfolding login
  login-LoginOutcome w by_id =
      let run : Ensures (LoginOutcome w) (login to_lower_case compare sign email password device)
          w =
        Ensures-gets _ _ (
          Ensures-if_found _ _ _ (λ e. Ensures-return _ (IsUnknown.nobody e, refl))
            λ u e. after_checks w u (by_id u e) e) in
      run.at
