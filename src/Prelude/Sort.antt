-- ===== src/Prelude/Sort.antt =====
-- `ORDER BY … DESC`: insertion sort by a number, the largest first.
use Prim.Native.Nat.{ℕ, ◌≤◌}
use mathlib.Core.Logic.{inl, inr}
use mathlib.Core.List.{List, [], ◌∷◌, Perm}
use mathlib.Core.List.Perm
use drawback_backend.Prelude.Lists.{All}
use native.Mathlib.Omega.{arith}
use drawback_backend.Prelude.Tests.{if◌then◌else◌, leb, Bool-cases}

module _ {ℓ} {A : Type ℓ} (key : A → ℕ) where
  unfoldable pub insert_desc : A → List A → List A
  insert_desc x [] = x ∷ []
  insert_desc x (y ∷ ys) = if leb (key y) (key x) then x ∷ y ∷ ys else y ∷ insert_desc x ys

  unfoldable pub sort_desc : List A → List A
  unfolding insert_desc
  sort_desc [] = []
  sort_desc (x ∷ xs) = insert_desc x (sort_desc xs)

  abbrev pub IsDescending : List A → Type ℓ
  IsDescending [] = Unit
  IsDescending (x ∷ xs) = All (λ y. key y ≤ key x) xs × IsDescending xs

  insert_desc-perm : (x : A) (ys : List A) → Perm (insert_desc x ys) (x ∷ ys)
  unfolding insert_desc
  insert_desc-perm x [] = Perm.refl (x ∷ [])
  insert_desc-perm x (y ∷ ys) = elim (Bool-cases (leb (key y) (key x))) [
    | inl e ↦ rw e (Perm.refl _)
    | inr e ↦ rw e (Perm.trans (Perm.cons y (insert_desc-perm x ys)) (Perm.swap x y ys))
  ]

  pub sort_desc-perm : (xs : List A) → Perm (sort_desc xs) xs
  unfolding sort_desc
  sort_desc-perm [] = Perm.refl []
  sort_desc-perm (x ∷ xs) =
      Perm.trans (insert_desc-perm x (sort_desc xs)) (Perm.cons x (sort_desc-perm xs))

  insert_desc-All :
      (bound : ℕ) (x : A) (ys : List A)
      → key x ≤ bound
      → All (λ y. key y ≤ bound) ys
      → All (λ y. key y ≤ bound) (insert_desc x ys)
  unfolding insert_desc
  insert_desc-All bound x [] h a = (h, tt)
  insert_desc-All bound x (y ∷ ys) h a = elim (Bool-cases (leb (key y) (key x))) [
    | inl e ↦ rw e (h, a)
    | inr e ↦ rw e (a.0, insert_desc-All bound x ys h a.1)
  ]

  All-weaken :
      (low high : ℕ) (ys : List A)
      → low ≤ high
      → All (λ y. key y ≤ low) ys
      → All (λ y. key y ≤ high) ys
  All-weaken low high [] h a = tt
  All-weaken low high (y ∷ ys) h a =
      let first = a.0 in (omega (arith, first, h), All-weaken low high ys h a.1)

  insert_desc-IsDescending :
      (x : A) (ys : List A) → IsDescending ys → IsDescending (insert_desc x ys)
  unfolding insert_desc
  insert_desc-IsDescending x [] d = (tt, tt)
  insert_desc-IsDescending x (y ∷ ys) d = elim (Bool-cases (leb (key y) (key x))) [
    | inl e ↦
        let le : key y ≤ key x = ground arith in
        rw e ((le, All-weaken (key y) (key x) ys le d.0), d)
    | inr e ↦
        let le : key x ≤ key y = ground arith in
        rw e (insert_desc-All (key y) x ys le d.0, insert_desc-IsDescending x ys d.1)
  ]

  pub sort_desc-IsDescending : (xs : List A) → IsDescending (sort_desc xs)
  unfolding sort_desc
  sort_desc-IsDescending [] = tt
  sort_desc-IsDescending (x ∷ xs) =
      insert_desc-IsDescending x (sort_desc xs) (sort_desc-IsDescending xs)
