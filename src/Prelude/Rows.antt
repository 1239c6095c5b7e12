-- ===== src/Prelude/Rows.antt =====
-- What the functions on tables do to the rows: queries, and membership by `All` and `any`.
use drawback_backend.Prelude.Lists.{find_one, select, remove_where, update_where, any, All}
use drawback_backend.Prelude.Tests.{Bool-cases}
use mathlib.Core.Path.{◌≡◌, refl, subst}
use mathlib.Core.Bool.{Bool, true, false, ◌&&◌, ◌||◌, not}
use mathlib.Core.List.{List, [], ◌∷◌, ◌++◌}
use mathlib.Core.Logic.{inl, inr}
use mathlib.Core.Option.{none, some}
use native.Mathlib.Omega.{arith}

module _ {ℓ} {A : Type ℓ} where
  pub find_one-holds : (p : A → Bool) (xs : List A) (x : A) → find_one p xs ≡ some x → p x ≡ true
  unfolding find_one
  find_one-holds p [] x h = ground arith
  find_one-holds p (y ∷ xs) x h = ground (arith, find_one-holds p xs x)

  pub any_of_find_one :
      (p q : A → Bool) (xs : List A) (x : A) → find_one p xs ≡ some x → q x ≡ true → any q xs ≡ true
  unfolding find_one any
  any_of_find_one p q [] x h e = ground arith
  any_of_find_one p q (y ∷ xs) x h e = ground (arith, any_of_find_one p q xs x)

  pub find_one-none : (p : A → Bool) (xs : List A) → any p xs ≡ false → find_one p xs ≡ none
  unfolding find_one any
  find_one-none p [] h = refl
  find_one-none p (y ∷ xs) h = ground (arith, find_one-none p xs)

  pub any_of_find_one-none : (p : A → Bool) (xs : List A) → find_one p xs ≡ none → any p xs ≡ false
  unfolding find_one any
  any_of_find_one-none p [] h = refl
  any_of_find_one-none p (y ∷ xs) h = ground (arith, any_of_find_one-none p xs)

  pub any-append : (p : A → Bool) (xs ys : List A) → any p (xs ++ ys) ≡ (any p xs || any p ys)
  unfolding any
  any-append p [] ys = refl
  any-append p (x ∷ xs) ys = ground (arith, any-append p xs ys)

  pub any-append_holds :
      (p : A → Bool) (xs : List A) (x : A) → p x ≡ true → any p (xs ++ x ∷ []) ≡ true
  unfolding any
  any-append_holds p [] x h = ground arith
  any-append_holds p (y ∷ xs) x h = ground (arith, any-append_holds p xs x)

  pub any-remove_where :
      (p q : A → Bool) (xs : List A) → any q (remove_where p xs) ≡ any (λ x. not (p x) && q x) xs
  unfolding any remove_where
  any-remove_where p q [] = refl
  any-remove_where p q (x ∷ xs) = ground (arith, any-remove_where p q xs)

  pub find_one-remove_where : (p : A → Bool) (xs : List A) → find_one p (remove_where p xs) ≡ none
  unfolding find_one remove_where
  find_one-remove_where p [] = refl
  find_one-remove_where p (x ∷ xs) = ground (arith, find_one-remove_where p xs)

  -- An update that keeps its own clause is what a query by the clause finds.
  pub find_one-update_where :
      (p : A → Bool) (f : A → A) (xs : List A) (x : A)
      → ((y : A) → p y ≡ true → p (f y) ≡ true)
      → find_one p xs ≡ some x
      → find_one p (update_where p f xs) ≡ some (f x)
  unfolding find_one update_where
  find_one-update_where p f [] x k h = ground arith
  find_one-update_where p f (y ∷ xs) x k h = elim (Bool-cases (p y)) [
    | inl e ↦ let same : y ≡ x = ground arith in let kept = k y e in rw (e, kept, same) refl
    | inr e ↦ let rest = find_one-update_where p f xs x k (ground arith) in ground arith
  ]

  -- So is a row that is found by another clause, which the update keeps.
  pub find_one-update_found :
      (p q : A → Bool) (f : A → A) (xs : List A) (x : A)
      → ((y : A) → p (f y) ≡ p y)
      → q x ≡ true
      → find_one p xs ≡ some x
      → find_one p (update_where q f xs) ≡ some (f x)
  unfolding find_one update_where
  find_one-update_found p q f [] x k h e = ground arith
  find_one-update_found p q f (y ∷ xs) x k h e = elim (Bool-cases (p y)) [
    | inl found ↦
        let same : y ≡ x = ground arith in
        let kept = k x in
        let here : p x ≡ true = subst (λ z. p z ≡ true) same found in
        rw (same, h) (ground (arith, kept, here))
    | inr other ↦
        let rest = find_one-update_found p q f xs x k h (ground arith) in
        let kept = k y in ground (arith, kept, rest)
  ]

  pub find_one-append_new :
      (p : A → Bool) (xs : List A) (x : A)
      → find_one p xs ≡ none
      → p x ≡ true
      → find_one p (xs ++ x ∷ []) ≡ some x
  unfolding find_one
  find_one-append_new p [] x h e = ground arith
  find_one-append_new p (y ∷ xs) x h e = ground (arith, find_one-append_new p xs x)

module _ {ℓ κ} {A : Type ℓ} (P : A → Type κ) where
  pub find_one-All : (p : A → Bool) (xs : List A) (x : A) → All P xs → find_one p xs ≡ some x → P x
  unfolding find_one
  find_one-All p [] x a h = ground arith
  find_one-All p (y ∷ xs) x a h = elim (Bool-cases (p y)) [
    | inl e ↦ let same : y ≡ x = ground arith in subst P same a.0
    | inr e ↦ find_one-All p xs x a.1 (ground arith)
  ]

  pub All-append : (xs ys : List A) → All P xs → All P ys → All P (xs ++ ys)
  All-append [] ys a b = b
  All-append (x ∷ xs) ys a b = (a.0, All-append xs ys a.1 b)

  pub All-remove_where : (p : A → Bool) (xs : List A) → All P xs → All P (remove_where p xs)
  unfolding remove_where
  All-remove_where p [] a = tt
  All-remove_where p (x ∷ xs) a = elim (Bool-cases (p x)) [
    | inl e ↦ rw e (All-remove_where p xs a.1)
    | inr e ↦ rw e (a.0, All-remove_where p xs a.1)
  ]

  pub All-update_where :
      (p : A → Bool) (f : A → A) (xs : List A)
      → ((x : A) → P x → p x ≡ true → P (f x))
      → All P xs
      → All P (update_where p f xs)
  unfolding update_where
  All-update_where p f [] k a = tt
  All-update_where p f (x ∷ xs) k a = elim (Bool-cases (p x)) [
    | inl e ↦ rw e (k x a.0 e, All-update_where p f xs k a.1)
    | inr e ↦ rw e (a.0, All-update_where p f xs k a.1)
  ]

pub All-mono {ℓ κ μ} :
    {A : Type ℓ} {P : A → Type κ} {Q : A → Type μ} (xs : List A)
    → ((x : A) → P x → Q x)
    → All P xs
    → All Q xs
All-mono [] k a = tt
All-mono (x ∷ xs) k a = (k x a.0, All-mono xs k a.1)

-- The rows that a removal leaves did not meet its clause.
pub All-remove_where_mono {ℓ κ μ} :
    {A : Type ℓ} {P : A → Type κ} {Q : A → Type μ} (p : A → Bool) (xs : List A)
    → ((x : A) → P x → p x ≡ false → Q x)
    → All P xs
    → All Q (remove_where p xs)
unfolding remove_where
All-remove_where_mono p [] k a = tt
All-remove_where_mono p (x ∷ xs) k a = elim (Bool-cases (p x)) [
  | inl e ↦ rw e (All-remove_where_mono p xs k a.1)
  | inr e ↦ rw e (k x a.0 e, All-remove_where_mono p xs k a.1)
]

module _ {ℓ} {A : Type ℓ} where
  pub any-remove_where_self : (p : A → Bool) (xs : List A) → any p (remove_where p xs) ≡ false
  unfolding any remove_where
  any-remove_where_self p [] = refl
  any-remove_where_self p (x ∷ xs) = ground (arith, any-remove_where_self p xs)

  pub any-remove_where_other :
      (p q : A → Bool) (xs : List A) → any q xs ≡ false → any q (remove_where p xs) ≡ false
  unfolding any remove_where
  any-remove_where_other p q [] h = refl
  any-remove_where_other p q (x ∷ xs) h = ground (arith, any-remove_where_other p q xs)

  pub any-remove_where_keep :
      (p q : A → Bool) (xs : List A)
      → ((x : A) → q x ≡ true → p x ≡ false)
      → any q xs ≡ true
      → any q (remove_where p xs) ≡ true
  unfolding any remove_where
  any-remove_where_keep p q [] k h = h
  any-remove_where_keep p q (x ∷ xs) k h = ground (arith, k x, any-remove_where_keep p q xs k)

  pub All-zip {κ μ} :
      (P : A → Type κ) (Q : A → Type μ) (xs : List A)
      → All P xs
      → All Q xs
      → All (λ x. P x × Q x) xs
  All-zip P Q [] a b = tt
  All-zip P Q (x ∷ xs) a b = ((a.0, b.0), All-zip P Q xs a.1 b.1)

  pub any-select : (p q : A → Bool) (xs : List A) → any q (select p xs) ≡ any (λ x. p x && q x) xs
  unfolding any select
  any-select p q [] = refl
  any-select p q (x ∷ xs) = ground (arith, any-select p q xs)

  pub find_one-select :
      (p q : A → Bool) (xs : List A) → find_one q (select p xs) ≡ find_one (λ x. p x && q x) xs
  unfolding find_one select
  find_one-select p q [] = refl
  find_one-select p q (x ∷ xs) = ground (arith, find_one-select p q xs)

  pub find_one-append_found :
      (p : A → Bool) (xs ys : List A) (x : A)
      → find_one p xs ≡ some x
      → find_one p (xs ++ ys) ≡ some x
  unfolding find_one
  find_one-append_found p [] ys x h = ground arith
  find_one-append_found p (y ∷ xs) ys x h = ground (arith, find_one-append_found p xs ys x)
