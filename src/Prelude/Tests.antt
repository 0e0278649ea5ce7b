-- ===== src/Prelude/Tests.antt =====
-- Boolean tests on numbers and texts, the conditional, and case splits that keep an equation.
use Prim.Native.Nat.{ℕ, ◌≤◌, compare, Ordering}
use Prim.Native.String.{String, compare as str_compare}
use mathlib.Core.Path.{◌≡◌, refl}
use mathlib.Core.Logic.{◌↔◌, ◌⊎◌, inl, inr}
use mathlib.Core.Bool.{Bool, true, false, not, ◌&&◌}
use mathlib.Core.Option.{Option, none, some}
use native.Mathlib.Omega.{arith}
use text.Mathlib.Text.{◌==◌ as str_eq}
use text.Mathlib.TextEquality.{eq_iff}
use text.Mathlib.TextPositions.{eq_refl}

abbrev pub ltb : ℕ → ℕ → Bool
ltb a b = elim (compare a b) [ Ordering.lt ↦ true | _ ↦ false ]

abbrev pub leb : ℕ → ℕ → Bool
leb a b = elim (compare a b) [ Ordering.gt ↦ false | _ ↦ true ]

abbrev pub nat_eq : ℕ → ℕ → Bool
nat_eq a b = elim (compare a b) [ Ordering.eq ↦ true | _ ↦ false ]

infix 1 if◌then◌else◌
abbrev pub if◌then◌else◌ {ℓ} : {A : Type ℓ} → Bool → A → A → A
if true then x else y = x
if false then x else y = y

-- Python's `==` on `str`, and on `str | None`.
infix 50 ◌==◌
abbrev pub ◌==◌ : String → String → Bool
a == b = str_eq a b

-- Python's `<=` on `str`: by code points.
unfoldable pub str_le : String → String → Bool
str_le a b = elim (str_compare a b) [ Ordering.gt ↦ false | _ ↦ true ]

abbrev pub opt_eq : Option String → Option String → Bool
opt_eq none none = true
opt_eq (some a) (some b) = a == b
opt_eq _ _ = false

pub opt_eq→eq : (a b : Option String) → opt_eq a b ≡ true → a ≡ b
opt_eq→eq none none h = refl
opt_eq→eq (some a) (some b) h = ground (arith, eq_iff a b)
opt_eq→eq none (some b) h = ground arith
opt_eq→eq (some a) none h = ground arith

-- Python's `bool(s)` on `str` and on `str | None`.
abbrev pub truthy : String → Bool
truthy s = not (s == "")

abbrev pub opt_truthy : Option String → Bool
opt_truthy none = false
opt_truthy (some s) = truthy s

pub leb→le : (a b : ℕ) → leb a b ≡ true → a ≤ b
leb→le a b h = ground arith

pub nat_eq_iff : (a b : ℕ) → (nat_eq a b ≡ true) ↔ (a ≡ b)
nat_eq_iff a b = ground arith

pub Bool-cases : (b : Bool) → (b ≡ true) ⊎ (b ≡ false)
Bool-cases true = inl refl
Bool-cases false = inr refl

pub Option-cases {ℓ} : {A : Type ℓ} (o : Option A) → (o ≡ none) ⊎ ((a : A) × (o ≡ some a))
Option-cases none = inl refl
Option-cases (some a) = inr (a, refl)

pub and_split : (a b : Bool) → (a && b) ≡ true → (a ≡ true) × (b ≡ true)
and_split true b h = (refl, h)
and_split false b h = ground (arith, h)

pub eq_true : (a b : String) → (a == b) ≡ true → a ≡ b
eq_true a b h = ground (arith, eq_iff a b)

pub opt_eq_refl : (o : Option String) → opt_eq o o ≡ true
opt_eq_refl none = refl
opt_eq_refl (some s) = eq_refl s
