-- ===== src/Notifications/Current.antt =====
-- The token of a device that a message to a user goes to.
use drawback_backend.Prelude.{
  ℕ, Bool, true, false, List, [], ◌∷◌, Option, none, some, ◌≡◌, refl, sym, ◌∙◌, ◌≤◌, ◌==◌, ◌&&◌,
  ==_iff, ltb, count, select, sort_desc-IsDescending, IsDescending, count-sort_desc, head_of, All,
  All-select, All-sort_desc, All-mono, arith, subst,
}
use drawback_backend.Schema.{Database}
use drawback_backend.Schema.Enums.{PushProvider}
use drawback_backend.Schema.Entities.{PushToken}
use drawback_backend.Notifications.{current_token, same_provider}

-- An active token of the user, of Firebase.
pub record IsUsable (user : ℕ) (t : PushToken) : Type 0 where
  pub of_user : t.user_id ≡ user
  pub active : t.active ≡ true
  pub provider : same_provider t.provider PushProvider.fcm ≡ true

-- The usable token that was written last, or none if there is none.
abbrev pub IsCurrent : ℕ → Database → Option PushToken → Type 0
IsCurrent user db none = All (λ x. IsUsable user x → ⊥) db.push_tokens
IsCurrent user db (some t) =
    IsUsable user t × All (λ x. IsUsable user x → x.updated_at ≤ t.updated_at) db.push_tokens

module _ {A : Type 0} where
  none_counted :
      (p q : A → Bool) (xs : List A)
      → count q (select p xs) ≡ 0
      → All (λ x. p x ≡ true → q x ≡ false) xs
  unfolding count select
  none_counted p q [] h = tt
  none_counted p q (x ∷ xs) h = (λ e. ground arith, none_counted p q xs (ground arith))

  head_of-none : (q : A → Bool) (zs : List A) → head_of zs ≡ none → count q zs ≡ 0
  unfolding count
  head_of-none q [] h = refl
  head_of-none q (z ∷ zs) h = ground arith

  none_above :
      (key : A → ℕ) (k : ℕ) (zs : List A)
      → All (λ z. key z ≤ k) zs
      → count (λ z. ltb k (key z)) zs ≡ 0
  unfolding count
  none_above key k [] h = refl
  none_above key k (z ∷ zs) h = let rest = none_above key k zs h.1 in let low = h.0 in ground arith

  head_of-largest :
      (key : A → ℕ) (t : A) (zs : List A)
      → head_of zs ≡ some t
      → IsDescending key zs
      → count (λ z. ltb (key t) (key z)) zs ≡ 0
  unfolding count
  head_of-largest key t [] e d = ground arith
  head_of-largest key t (z ∷ zs) e d =
      let same : z ≡ t = ground arith in
      subst (λ x. count (λ z. ltb (key x) (key z)) (z ∷ zs) ≡ 0) same
        (let rest = none_above key (key z) zs d.0 in ground arith)

  head_of-All : (P : A → Type 0) (t : A) (zs : List A) → head_of zs ≡ some t → All P zs → P t
  head_of-All P t [] e a = ground arith
  head_of-All P t (z ∷ zs) e a = let same : z ≡ t = ground arith in subst P same a.0

abbrev usable : ℕ → PushToken → Bool
usable user t = t.user_id == user && t.active && same_provider t.provider PushProvider.fcm

usable-IsUsable : (user : ℕ) (t : PushToken) → usable user t ≡ true → IsUsable user t
usable-IsUsable user t h = record {
  of_user = ground arith;
  active = ground arith;
  provider = ground arith;
}

IsUsable-usable : (user : ℕ) (t : PushToken) → IsUsable user t → usable user t ≡ true
IsUsable-usable user t h = rw ((==_iff _ _).1 h.of_user, h.active, h.provider) refl

pub current_token-IsCurrent :
    (user : ℕ) (db : Database) (o : Option PushToken)
    → current_token user db ≡ o
    → IsCurrent user db o
unfolding current_token
current_token-IsCurrent user db none e =
    All-mono db.push_tokens
      (λ x k u. let may = IsUsable-usable user x u in let no_one = k may in ground arith)
      (none_counted (usable user) (λ _. true) db.push_tokens
        (sym (count-sort_desc (λ t. t.updated_at) (λ _. true) (select (usable user) db.push_tokens))
          ∙ head_of-none _ _ e))
current_token-IsCurrent user db (some t) e = (
  usable-IsUsable user t (
      head_of-All (λ x. usable user x ≡ true) t _ e
        (All-sort_desc _ _ _ (All-select (usable user) db.push_tokens))),
  All-mono db.push_tokens
      (λ x k u. let may = IsUsable-usable user x u in let old = k may in ground arith)
      (none_counted (usable user) (λ z. ltb t.updated_at z.updated_at) db.push_tokens
        (sym (count-sort_desc (λ t. t.updated_at) _ (select (usable user) db.push_tokens))
          ∙ head_of-largest (λ t. t.updated_at) t _ e (sort_desc-IsDescending _ _))),
)
