-- ===== src/Prelude/Options.antt =====
-- Values that the source tests as conditions, where a missing one, an empty text and 0 count as false,
-- and the operators `?.` and `??`.
use Prim.Native.Nat.{ℕ}
use Prim.Native.String.{String}
use mathlib.Core.Bool.{Bool, true, false}
use mathlib.Core.Path.{◌≡◌, refl}
use mathlib.Core.Option.{Option, none, some}
use mathlib.Core.List.{List, [], ◌∷◌}
use text.Mathlib.Text.{◌==◌ as str_eq}
use drawback_backend.Prelude.Tests.{◌==◌, if◌then◌else◌}

abbrev pub non_empty : Option String → Option String
non_empty none = none
non_empty (some s) = if str_eq s "" then none else some s

abbrev pub non_zero : Option ℕ → Option ℕ
non_zero none = none
non_zero (some n) = if n == 0 then none else some n

abbrev pub bind_option {ℓ κ} : {A : Type ℓ} {B : Type κ} → Option A → (A → Option B) → Option B
bind_option none f = none
bind_option (some a) f = f a

abbrev pub is_text : Option String → String → Bool
is_text none t = false
is_text (some s) t = str_eq s t

abbrev pub is_one : Option ℕ → Bool
is_one none = false
is_one (some n) = n == 1

abbrev pub first_of {ℓ} : {A : Type ℓ} → Option A → Option A → Option A
first_of none b = b
first_of (some a) b = some a

abbrev pub is_there {ℓ} : {A : Type ℓ} → Option A → Bool
is_there none = false
is_there (some a) = true

abbrev pub head_of {ℓ} : {A : Type ℓ} → List A → Option A
head_of [] = none
head_of (x ∷ xs) = some x

-- Whether there is a value that passes a test.
abbrev pub holds_of {ℓ} : {A : Type ℓ} → Option A → (A → Bool) → Bool
holds_of none p = false
holds_of (some a) p = p a

module _ {ℓ} {A : Type ℓ} (o : Option A) (p : A → Bool) where
  pub holds_of-none : o ≡ none → holds_of o p ≡ false
  holds_of-none e = rw e refl

  pub holds_of-some : (a : A) → o ≡ some a → p a ≡ false → holds_of o p ≡ false
  holds_of-some a e h = rw e h
