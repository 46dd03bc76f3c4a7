-- ===== src/Base/Tests.antt =====
-- Boolean tests on the native numbers, the conditional, and case splits on a computed value.
use Prim.Native.Nat.{ℕ, ◌≤◌, ◌<◌, compare, Ordering}
use mathlib.Core.Path.{◌≡◌, refl}
use mathlib.Core.Logic.{◌↔◌, ◌⊎◌, inl, inr}
use mathlib.Core.Bool.{Bool, true, false, not}
use mathlib.Core.Option.{Option, none, some}
use native.Mathlib.Omega.{arith}

abbrev pub ltb : ℕ → ℕ → Bool
ltb a b = elim (compare a b) [ Ordering.lt ↦ true | _ ↦ false ]

abbrev pub leb : ℕ → ℕ → Bool
leb a b = elim (compare a b) [ Ordering.gt ↦ false | _ ↦ true ]

infix 50 ◌==◌
abbrev pub ◌==◌ : ℕ → ℕ → Bool
a == b = elim (compare a b) [ Ordering.eq ↦ true | _ ↦ false ]

infix 1 if◌then◌else◌
abbrev pub if◌then◌else◌ {ℓ} : {A : Type ℓ} → Bool → A → A → A
if true then x else y = x
if false then x else y = y

pub ltb→lt : (a b : ℕ) → ltb a b ≡ true → a < b
ltb→lt a b h = ground arith

pub lt→ltb : (a b : ℕ) → a < b → ltb a b ≡ true
lt→ltb a b h = ground arith

pub ltb-false : (a b : ℕ) → b ≤ a → ltb a b ≡ false
ltb-false a b h = ground arith

pub le_of_ltb-false : (a b : ℕ) → ltb a b ≡ false → b ≤ a
le_of_ltb-false a b h = ground arith

pub ==_iff : (a b : ℕ) → ((a == b) ≡ true) ↔ (a ≡ b)
==_iff a b = ground arith

pub Bool-cases : (b : Bool) → (b ≡ true) ⊎ (b ≡ false)
Bool-cases true = inl refl
Bool-cases false = inr refl

pub Option-cases {ℓ} : {A : Type ℓ} (o : Option A) → (o ≡ none) ⊎ ((a : A) × (o ≡ some a))
Option-cases none = inl refl
Option-cases (some a) = inr (a, refl)

-- The next call, where the one before has succeeded.
abbrev pub and_then {ℓ κ} : {A : Type ℓ} {B : Type κ} → Option A → (A → Option B) → Option B
and_then none f = none
and_then (some a) f = f a

-- A property of a conditional, by its two branches; the test stays as it is in the goal.
module _ {ℓ κ} {A : Type ℓ} (R : A → Type κ) (x y : A) where
  pub on_test : (b : Bool) → (b ≡ true → R x) → (b ≡ false → R y) → R (if b then x else y)
  on_test true f g = f refl
  on_test false f g = g refl

  pub on_not : (b : Bool) → (b ≡ false → R x) → (b ≡ true → R y) → R (if not b then x else y)
  on_not true f g = g refl
  on_not false f g = f refl

-- The same for two conditionals on one test.
module _ {ℓ μ κ} {A : Type ℓ} {B : Type μ} (R : A → B → Type κ) (x y : A) (x' y' : B) where
  pub on_tests :
      (b : Bool)
      → (b ≡ true → R x x')
      → (b ≡ false → R y y')
      → R (if b then x else y) (if b then x' else y')
  on_tests true f g = f refl
  on_tests false f g = g refl

  pub on_nots :
      (b : Bool)
      → (b ≡ false → R x x')
      → (b ≡ true → R y y')
      → R (if not b then x else y) (if not b then x' else y')
  on_nots true f g = g refl
  on_nots false f g = f refl
