-- ===== src/Auth/Tokens.antt =====
-- The token of a password reset.
use drawback_backend.Prelude.{
  ℕ, String, Bool, true, false, List, [], ◌∷◌, none, some, ◌≡◌, refl, subst, ◌==◌, ==_refl, arith,
  ltb, ◌≤◌, find_one, update_where, count, any, holds, find_one-none, if◌then◌else◌, Bool-cases,
  inl, inr, count_of_any,
}
use drawback_backend.Schema.Entities.{User}
use drawback_backend.World.{World, Result, ok, err, ◌>>=◌}
use drawback_backend.World.Rules.{
  Ensures, Ensures-gets, Ensures-return, Ensures-if_found, Ensures-if, Ensures-modify_db,
}
use drawback_backend.Users.Profile.{save_user}
use drawback_backend.Auth.{Outcome, reset_password, reset, with_password, failed, succeeded}

-- A user has the token, which has not run out; the row gets the new hash and loses the token.
pub record HasReset (w w' : World) (now token : ℕ) (password_hash : String) : Type 0 where
  pub user : User
  pub found : find_one (λ u. holds u.reset_token token) w.db.users ≡ some user
  pub expiry : ℕ
  pub expires : user.reset_token_expiry ≡ some expiry
  pub in_time : ltb expiry now ≡ false
  pub world : w' ≡ record w { db = save_user (with_password password_hash user) w.db }

abbrev pub ResetOutcome : World → ℕ → ℕ → String → Result Outcome → World → Type 0
ResetOutcome w now token h (ok o) w' = if o.success then HasReset w w' now token h else (w' ≡ w)
ResetOutcome w now token h (err e) w' = ⊥

-- A password reset always answers. If it succeeds, a user had the token and it had not run out; the
-- user's row gets the hash of the new password and loses the token. If it fails, nothing changes.
pub reset_password-ResetOutcome :
    (hash : String → String) (now token : ℕ) (password : String) (w : World)
    → ResetOutcome w now token
        (hash password)
        (reset_password hash now token password w).0
        (reset_password hash now token password w).1
unfolding reset_password reset
reset_password-ResetOutcome hash now token password w =
    let run : Ensures (ResetOutcome w now token (hash password))
        (reset_password hash now token password) w =
      Ensures-gets _ _ (
        Ensures-if_found _ _ _ (λ _. Ensures-return _ refl)
          λ u e.
            Ensures-if_found _ _ _ (λ _. Ensures-return _ refl)
              λ t x.
                Ensures-if _ _ _ (λ _. Ensures-return _ refl)
                  λ l.
                    let next : World = record w {
                      db = save_user (with_password (hash password) u) w.db;
                    } in
                    let done : HasReset w next now token (hash password) = record {
                      user = u;
                      found = e;
                      expiry = t;
                      expires = x;
                      in_time = l;
                      world = refl;
                    } in
                    Ensures-modify_db _ _ (Ensures-return (succeeded u.email none) done)) in
    run.at

module _ (p : User → Bool) (v : User) (n : p v ≡ false) where
  -- Rewriting rows to one that does not meet a clause makes none that does.
  any-update_where :
      (q : User → Bool) (us : List User)
      → any p us ≡ false
      → any p (update_where q (λ _. v) us) ≡ false
  unfolding any update_where
  any-update_where q [] h = refl
  any-update_where q (x ∷ us) h = ground (arith, any-update_where q us)

  -- Rewriting the one row that meets a clause leaves none that does.
  spent :
      (u : User) (us : List User)
      → count p us ≤ 1
      → find_one p us ≡ some u
      → any p (update_where (λ x. x.id == u.id) (λ _. v) us) ≡ false
  unfolding find_one count update_where any
  spent u [] c f = refl
  spent u (x ∷ us) c f = elim (Bool-cases (p x)) [
    | inl e ↦
        let same : x ≡ u = ground arith in
        let alone : any p us ≡ false = elim (Bool-cases (any p us)) [
          | inr gone ↦ gone
          | inl more ↦ let two = count_of_any p us more in absurd (ground arith)
        ] in
        rw (same, ==_refl u.id, n) (any-update_where (λ y. y.id == u.id) us alone)
    | inr e ↦ let rest = spent u us (ground arith) (ground arith) in ground arith
  ]

used :
    (hash : String → String) (later token : ℕ) (other : String) (w w' : World) (now : ℕ)
    (h : String)
    → count (λ u. holds u.reset_token token) w.db.users ≤ 1
    → HasReset w w' now token h
    → reset_password hash later token other w'
      ≡ (ok (failed none "Invalid or expired reset token"), w')
unfolding reset_password save_user ◌>>=◌
used hash later token other w w' now h one d =
    let none_left =
      spent (λ u. holds u.reset_token token) (with_password h d.user) refl d.user w.db.users one
        d.found in
    rw (d.world, find_one-none _ _ none_left, ◌>>=◌) refl

-- Where at most one user has the token, a reset that succeeds has used it up: a second one with the
-- same token is refused, at any time and with any password, and changes nothing.
pub reset_password_once :
    (hash : String → String) (now token : ℕ) (password : String) (w : World) (o : Outcome)
    → count (λ u. holds u.reset_token token) w.db.users ≤ 1
    → (reset_password hash now token password w).0 ≡ ok o
    → o.success ≡ true
    → (later : ℕ) (other : String)
    → let w' = (reset_password hash now token password w).1 in
      reset_password hash later token other w'
      ≡ (ok (failed none "Invalid or expired reset token"), w')
reset_password_once hash now token password w o one r s later other =
    let out = reset_password-ResetOutcome hash now token password w in
    let done =
      subst
        (λ x.
          ResetOutcome w now token (hash password) x (reset_password hash now token password w).1)
        r out in
    used hash later token other w _ now (hash password) one (
      subst
        (λ b.
          if b
          then HasReset w (reset_password hash now token password w).1 now token (hash password)
          else ((reset_password hash now token password w).1 ≡ w))
        s done)
