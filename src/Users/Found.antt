-- ===== src/Users/Found.antt =====
-- Whom the discovery game finds.
use drawback_backend.Prelude.{
  ℕ, zero, suc, Bool, true, false, List, [], ◌∷◌, Option, none, some, ◌≡◌, refl, ◌<◌, ◌%◌, length,
  any, select, drop, head_of, Bool-cases, Option-cases, inl, inr, arith, All, All-select, subst,
  ◌≢◌, ◌==◌, ==_refl, ◌&&◌, ◌||◌, ◌⊎◌, is_there,
}
use native.Mathlib.Nat.{mod-lt, zero-lt-suc}
use drawback_backend.Schema.Enums.{is_pending, is_accepted}
use drawback_backend.Schema.{Database}
use drawback_backend.Schema.Entities.{User, ChatRequest}
use drawback_backend.World.{World, ok, gets}
use drawback_backend.Users.Discovery.{
  is_open_request, connects, may_be_discovered, pick, get_random_discovery_user,
}

module _ {ℓ} {A : Type ℓ} where
  place-All :
      (P : A → Type 0) (n : ℕ) (xs : List A) (x : A) → All P xs → head_of (drop n xs) ≡ some x → P x
  unfolding drop
  place-All P zero [] x a h = ground arith
  place-All P (suc n) [] x a h = ground arith
  place-All P zero (y ∷ ys) x a h = let same : y ≡ x = ground arith in subst P same a.0
  place-All P (suc n) (y ∷ ys) x a h = place-All P n ys x a.1 h

  any_of_place :
      (q : A → Bool) (n : ℕ) (xs : List A) (x : A)
      → head_of (drop n xs) ≡ some x
      → q x ≡ true
      → any q xs ≡ true
  unfolding drop any
  any_of_place q zero [] x h e = ground arith
  any_of_place q (suc n) [] x h e = ground arith
  any_of_place q zero (y ∷ ys) x h e = ground arith
  any_of_place q (suc n) (y ∷ ys) x h e = ground (arith, any_of_place q n ys x)

  place_in_range : (n : ℕ) (xs : List A) → n < length xs → head_of (drop n xs) ≢ none
  unfolding drop
  place_in_range zero [] h = absurd (omega arith)
  place_in_range (suc n) [] h = absurd (omega arith)
  place_in_range zero (y ∷ ys) h = λ e. ground arith
  place_in_range (suc n) (y ∷ ys) h = place_in_range n ys (omega arith)

  any_of_select : (p q : A → Bool) (xs : List A) → any q (select p xs) ≡ true → any q xs ≡ true
  unfolding any select
  any_of_select p q [] h = h
  any_of_select p q (x ∷ xs) h = ground (arith, any_of_select p q xs)

  none_selected : (p : A → Bool) (xs : List A) → length (select p xs) ≡ 0 → any p xs ≡ false
  unfolding select any
  none_selected p [] h = refl
  none_selected p (x ∷ xs) h = ground (arith, none_selected p xs)

abbrev pub Joined : ℕ → ℕ → ChatRequest → Type 0
Joined a b r =
    ((r.from_user_id ≡ a) × (r.to_user_id ≡ b)) ⊎ ((r.from_user_id ≡ b) × (r.to_user_id ≡ a))

abbrev pub Apart : ℕ → ℕ → ChatRequest → Type 0
Apart a b r = (is_pending r.status || is_accepted r.status) ≡ true → Joined a b r → ⊥

-- Another user than `current` who takes part, has an image, and has no pending or accepted request
-- with `current`, whoever of the two asked.
pub record IsDiscoverable (db : Database) (current : ℕ) (u : User) : Type 0 where
  pub plays : u.appear_in_discovery_game ≡ true
  pub image : u.discovery_image_url ≢ none
  pub other : u.id ≢ current
  pub apart : All (Apart current u.id) db.chat_requests

joins-Apart :
    (a b : ℕ) (r : ChatRequest) → (is_open_request r && connects a b r) ≡ false → Apart a b r
joins-Apart a b r h o (inl (e, e')) = ground arith
joins-Apart a b r h o (inr (e, e')) = ground arith

Apart-joins :
    (a b : ℕ) (r : ChatRequest) → Apart a b r → (is_open_request r && connects a b r) ≡ false
Apart-joins a b r h = elim (Bool-cases (is_open_request r)) [
  | inr no_request ↦ ground arith
  | inl o ↦ elim (Bool-cases (r.from_user_id == a && r.to_user_id == b)) [
    | inl e ↦ absurd (h o (inl (ground arith, ground arith)))
    | inr n ↦ elim (Bool-cases (r.from_user_id == b && r.to_user_id == a)) [
      | inl e ↦ absurd (h o (inr (ground arith, ground arith)))
      | inr n' ↦ ground arith
    ]
  ]
]

connects-Apart :
    (a b : ℕ) (rs : List ChatRequest)
    → any (λ r. is_open_request r && connects a b r) rs ≡ false
    → All (Apart a b) rs
unfolding any
connects-Apart a b [] h = tt
connects-Apart a b (r ∷ rs) h =
    (joins-Apart a b r (ground arith), connects-Apart a b rs (ground arith))

any-Apart :
    (a b : ℕ) (rs : List ChatRequest)
    → All (Apart a b) rs
    → any (λ r. is_open_request r && connects a b r) rs ≡ false
unfolding any
any-Apart a b [] h = refl
any-Apart a b (r ∷ rs) h =
    let here = Apart-joins a b r h.0 in let rest = any-Apart a b rs h.1 in ground arith

there : {A : Type 0} (o : Option A) → is_there o ≡ true → o ≢ none
there none h = λ e. ground arith
there (some a) h = λ e. ground arith

is_there_of : {A : Type 0} (o : Option A) → o ≢ none → is_there o ≡ true
is_there_of none h = absurd (h refl)
is_there_of (some a) h = refl

may_be_discovered-IsDiscoverable :
    (db : Database) (current : ℕ) (u : User)
    → may_be_discovered db current u ≡ true
    → IsDiscoverable db current u
may_be_discovered-IsDiscoverable db current u h = record {
  plays = ground arith;
  image = there u.discovery_image_url (ground arith);
  other = λ e. ground arith;
  apart = connects-Apart current u.id db.chat_requests (ground arith);
}

IsDiscoverable-may_be_discovered :
    (db : Database) (current : ℕ) (u : User)
    → IsDiscoverable db current u
    → may_be_discovered db current u ≡ true
IsDiscoverable-may_be_discovered db current u d =
    let plays = d.plays in
    let image = is_there_of u.discovery_image_url d.image in
    let other = d.other in
    let apart = any-Apart current u.id db.chat_requests d.apart in ground arith

any-IsDiscoverable :
    (db : Database) (current : ℕ) (us : List User)
    → any (may_be_discovered db current) us ≡ false
    → All (λ u. IsDiscoverable db current u → ⊥) us
unfolding any
any-IsDiscoverable db current [] h = tt
any-IsDiscoverable db current (u ∷ us) h = (
  λ d. let may = IsDiscoverable-may_be_discovered db current u d in ground arith,
  any-IsDiscoverable db current us (ground arith),
)

-- No user of the table may be found, or one who may be, with the id of a row of the table.
abbrev pub DiscoveryOutcome : Database → ℕ → Option User → Type 0
DiscoveryOutcome db current none = All (λ u. IsDiscoverable db current u → ⊥) db.users
DiscoveryOutcome db current (some u) =
    IsDiscoverable db current u × (any (λ x. x.id == u.id) db.users ≡ true)

found_row :
    (random : ℕ) (p : User → Bool) (us : List User) (u : User)
    → pick random (select p us) ≡ some u
    → (p u ≡ true) × (any (λ x. x.id == u.id) us ≡ true)
unfolding pick
found_row random p us u h = (
  place-All (λ x. p x ≡ true) (random % length (select p us)) (select p us) u (All-select p us) h,
  any_of_select p (λ x. x.id == u.id) us
      (any_of_place (λ x. x.id == u.id) (random % length (select p us)) (select p us) u h
        (==_refl u.id)),
)

pick-none : (random : ℕ) (us : List User) → pick random us ≡ none → length us ≡ 0
unfolding pick
pick-none random [] h = refl
pick-none random (u ∷ us) h =
    absurd (
      place_in_range (random % length (u ∷ us)) (u ∷ us) (mod-lt random (zero-lt-suc (length us)))
        h)

-- The discovery game changes nothing and finds somebody whenever there is a user who may be found:
-- another user who takes part, has an image, and has no pending or accepted request with the one who
-- asks, from either of the two. Whoever is found is such a user, with the id of a row of the table.
pub get_random_discovery_user-DiscoveryOutcome :
    (random : ℕ) (current : User) (w : World)
    → (o : Option User) × (get_random_discovery_user random current w ≡ (ok o, w))
      × DiscoveryOutcome w.db current.id o
unfolding get_random_discovery_user gets
get_random_discovery_user-DiscoveryOutcome random current w =
    let p = may_be_discovered w.db current.id in
    elim (Option-cases (pick random (select p w.db.users))) [
      | inl e ↦ (
        none,
        rw e refl,
        any-IsDiscoverable w.db current.id w.db.users
            (none_selected p w.db.users (pick-none random (select p w.db.users) e)),
      )
      | inr (u, e) ↦
          let (may, row) = found_row random p w.db.users u e in
          (some u, rw e refl, (may_be_discovered-IsDiscoverable w.db current.id u may, row))
    ]
