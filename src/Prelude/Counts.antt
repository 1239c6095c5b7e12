-- ===== src/Prelude/Counts.antt =====
-- The number of rows that meet a clause, and what the functions on tables do to it.
use drawback_backend.Prelude.Lists.{
  find_one, select, remove_where, update_where, any, All, count, drop,
}
use drawback_backend.Prelude.Tests.{Bool-cases, leb}
use Prim.Native.Nat.{ℕ, zero, suc, ◌+◌, ◌≤◌, ◌<◌}
use mathlib.Core.Path.{◌≡◌, refl, subst, sym}
use mathlib.Core.Bool.{Bool, true, false, ◌&&◌, ◌||◌, not}
use mathlib.Core.List.{List, [], ◌∷◌, ◌++◌}
use drawback_backend.Prelude.Sort.{insert_desc, sort_desc}
use mathlib.Core.Logic.{inl, inr}
use mathlib.Core.Option.{some}
use native.Mathlib.Omega.{arith}
use drawback_backend.Prelude.Rows.{any_of_find_one, find_one-holds}

module _ {ℓ} {A : Type ℓ} where
  -- An update that keeps a clause changes no number of rows that meet it.
  pub count-update_where :
      (p q : A → Bool) (f : A → A) (xs : List A)
      → ((y : A) → p (f y) ≡ p y)
      → count p (update_where q f xs) ≡ count p xs
  unfolding count update_where
  count-update_where p q f [] k = refl
  count-update_where p q f (y ∷ xs) k = ground (arith, k y, count-update_where p q f xs k)

  pub count-append : (p : A → Bool) (xs ys : List A) → count p (xs ++ ys) ≡ count p xs + count p ys
  unfolding count
  count-append p [] ys = omega arith
  count-append p (x ∷ xs) ys = omega (arith, count-append p xs ys)

  pub count-remove_where-le :
      (p q : A → Bool) (xs : List A) → count q (remove_where p xs) ≤ count q xs
  unfolding count remove_where
  count-remove_where-le p q [] = omega arith
  count-remove_where-le p q (x ∷ xs) = ground (arith, count-remove_where-le p q xs)

  pub count-zero : (p : A → Bool) (xs : List A) → any p xs ≡ false → count p xs ≡ 0
  unfolding count any
  count-zero p [] h = refl
  count-zero p (x ∷ xs) h = ground (arith, count-zero p xs)

  pub count-append_new :
      (p : A → Bool) (xs : List A) (x : A)
      → count p xs ≤ 1
      → (p x ≡ true → any p xs ≡ false)
      → count p (xs ++ x ∷ []) ≤ 1
  unfolding count
  count-append_new p xs x h k =
      let sum = count-append p xs (x ∷ []) in
      elim (Bool-cases (p x)) [
        | inl e ↦ let zero_before = count-zero p xs (k e) in ground (arith, sum, zero_before, e)
        | inr e ↦ ground (arith, sum, h, e)
      ]

  pub any_of_count : (p : A → Bool) (xs : List A) → 0 < count p xs → any p xs ≡ true
  unfolding count any
  any_of_count p [] h = absurd (omega arith)
  any_of_count p (x ∷ xs) h = ground (arith, any_of_count p xs)

module _ {ℓ} {A : Type ℓ} where
  pub count_of_any : (p : A → Bool) (xs : List A) → any p xs ≡ true → 0 < count p xs
  unfolding any count
  count_of_any p [] h = ground arith
  count_of_any p (x ∷ xs) h = ground (arith, count_of_any p xs)

  pub count_congr : (p q : A → Bool) (xs : List A) → ((x : A) → p x ≡ q x) → count p xs ≡ count q xs
  unfolding count
  count_congr p q [] h = refl
  count_congr p q (x ∷ xs) h = ground (arith, h x, count_congr p q xs h)

  pub remove_where-none : (p : A → Bool) (xs : List A) → count p xs ≡ 0 → remove_where p xs ≡ xs
  unfolding count remove_where
  remove_where-none p [] h = refl
  remove_where-none p (x ∷ xs) h = ground (arith, remove_where-none p xs)

  pub count_of_find_one :
      (p q : A → Bool) (xs : List A) (x : A) → find_one p xs ≡ some x → q x ≡ true → 0 < count q xs
  count_of_find_one p q xs x f h = count_of_any q xs (any_of_find_one p q xs x f h)

  -- The only row that meets a clause is the one that a query by it finds.
  pub find_one_unique :
      (p q : A → Bool) (xs : List A) (x : A)
      → count p xs ≤ 1
      → find_one q xs ≡ some x
      → p x ≡ true
      → find_one p xs ≡ some x
  unfolding find_one count
  find_one_unique p q [] x h f e = ground arith
  find_one_unique p q (y ∷ xs) x h f e = elim (Bool-cases (q y)) [
    | inl found ↦
        let same : y ≡ x = ground arith in
        let here = subst (λ z. p z ≡ true) (sym same) e in ground (arith, same, here)
    | inr other ↦
        let rest : find_one q xs ≡ some x = ground arith in
        let positive = count_of_find_one q p xs x rest e in
        let above : p y ≡ false = ground arith in
        let later = find_one_unique p q xs x (ground arith) rest e in ground (arith, above, later)
  ]

  pub count-remove_where :
      (p q : A → Bool) (xs : List A)
      → count q (remove_where p xs) ≡ count (λ x. not (p x) && q x) xs
  unfolding count remove_where
  count-remove_where p q [] = refl
  count-remove_where p q (x ∷ xs) = ground (arith, count-remove_where p q xs)

  pub count-select :
      (p q : A → Bool) (xs : List A) → count q (select p xs) ≡ count (λ x. p x && q x) xs
  unfolding count select
  count-select p q [] = refl
  count-select p q (x ∷ xs) = ground (arith, count-select p q xs)

  pub count_mono :
      (p q : A → Bool) (xs : List A) → ((x : A) → q x ≡ true → p x ≡ true) → count q xs ≤ count p xs
  unfolding count
  count_mono p q [] k = omega arith
  count_mono p q (x ∷ xs) k = ground (arith, k x, count_mono p q xs k)

  count-insert_desc :
      (key : A → ℕ) (p : A → Bool) (x : A) (ys : List A)
      → count p (insert_desc key x ys) ≡ count p (x ∷ ys)
  unfolding count insert_desc
  count-insert_desc key p x [] = refl
  count-insert_desc key p x (y ∷ ys) = ground (arith, count-insert_desc key p x ys)

  pub count-sort_desc :
      (key : A → ℕ) (p : A → Bool) (xs : List A) → count p (sort_desc key xs) ≡ count p xs
  unfolding count sort_desc
  count-sort_desc key p [] = refl
  count-sort_desc key p (x ∷ xs) =
      let inserted = count-insert_desc key p x (sort_desc key xs) in
      let rest = count-sort_desc key p xs in omega (arith, inserted, rest)

  -- A list without its first rows has fewer of any kind by no more than were dropped.
  pub count-drop : (p : A → Bool) (n : ℕ) (xs : List A) → count p xs ≤ n + count p (drop n xs)
  unfolding count drop
  count-drop p zero xs = omega arith
  count-drop p (suc n) [] = omega arith
  count-drop p (suc n) (x ∷ xs) = ground (arith, count-drop p n xs)

  -- After an update, the rows that meet a clause met it before or were rewritten.
  pub count-update_where-either :
      (p q : A → Bool) (f : A → A) (xs : List A)
      → count p (update_where q f xs) ≤ count (λ x. p x || q x) xs
  unfolding count update_where
  count-update_where-either p q f [] = omega arith
  count-update_where-either p q f (x ∷ xs) = ground (arith, count-update_where-either p q f xs)

  pub count-update_where-le :
      (p q : A → Bool) (f : A → A) (xs : List A)
      → ((x : A) → p (f x) ≡ true → p x ≡ true)
      → count p (update_where q f xs) ≤ count p xs
  unfolding count update_where
  count-update_where-le p q f [] k = omega arith
  count-update_where-le p q f (x ∷ xs) k = ground (arith, k x, count-update_where-le p q f xs k)

  pub count_either :
      (p q : A → Bool) (xs : List A)
      → count (λ x. p x || q x) xs ≡ count p xs + count (λ x. not (p x) && q x) xs
  unfolding count
  count_either p q [] = omega arith
  count_either p q (x ∷ xs) = ground (arith, count_either p q xs)

  pub count_split :
      (p q : A → Bool) (xs : List A)
      → count q xs ≡ count (λ x. p x && q x) xs + count (λ x. not (p x) && q x) xs
  unfolding count
  count_split p q [] = omega arith
  count_split p q (x ∷ xs) = ground (arith, count_split p q xs)

  -- One row that meets both of two clauses, which meet one row at most each.
  pub count-both :
      (p q : A → Bool) (xs : List A) (x : A)
      → find_one p xs ≡ some x
      → q x ≡ true
      → 0 < count (λ y. p y && q y) xs
  count-both p q xs x f h =
      let held = find_one-holds p xs x f in
      count_of_find_one p (λ y. p y && q y) xs x f (ground (arith, held, h))

-- What holds of all selected rows, and of all sorted ones.
module _ {ℓ} {A : Type ℓ} where
  pub All-select : (p : A → Bool) (xs : List A) → All (λ x. p x ≡ true) (select p xs)
  unfolding select
  All-select p [] = tt
  All-select p (x ∷ xs) = elim (Bool-cases (p x)) [
    | inl e ↦ rw e (e, All-select p xs)
    | inr e ↦ rw e (All-select p xs)
  ]

  All-insert_desc :
      (P : A → Type 0) (key : A → ℕ) (x : A) (ys : List A)
      → P x
      → All P ys
      → All P (insert_desc key x ys)
  unfolding insert_desc
  All-insert_desc P key x [] h a = (h, tt)
  All-insert_desc P key x (y ∷ ys) h a = elim (Bool-cases (leb (key y) (key x))) [
    | inl e ↦ rw e (h, a)
    | inr e ↦ rw e (a.0, All-insert_desc P key x ys h a.1)
  ]

  pub All-sort_desc :
      (P : A → Type 0) (key : A → ℕ) (xs : List A) → All P xs → All P (sort_desc key xs)
  unfolding sort_desc
  All-sort_desc P key [] a = tt
  All-sort_desc P key (x ∷ xs) a =
      All-insert_desc P key x (sort_desc key xs) a.0 (All-sort_desc P key xs a.1)
