-- ===== src/Prelude/Tests.antt =====
-- Boolean tests on the native numbers, the conditional, and equality as an interface.
use Prim.Native.Nat.{ℕ, compare, Ordering}
use mathlib.Core.Path.{◌≡◌, refl, ap}
use mathlib.Core.Logic.{◌↔◌, ◌⊎◌, inl, inr}
use mathlib.Core.Bool.{Bool, true, false}
use mathlib.Core.Option.{Option, none, some}
use native.Mathlib.Omega.{arith}

abbrev pub ltb : ℕ → ℕ → Bool
ltb a b = elim (compare a b) [ Ordering.lt ↦ true | _ ↦ false ]

abbrev pub leb : ℕ → ℕ → Bool
leb a b = elim (compare a b) [ Ordering.gt ↦ false | _ ↦ true ]

abbrev pub nat_beq : ℕ → ℕ → Bool
nat_beq a b = elim (compare a b) [ Ordering.eq ↦ true | _ ↦ false ]

infix 1 if◌then◌else◌
abbrev pub if◌then◌else◌ {ℓ} : {A : Type ℓ} → Bool → A → A → A
if true then x else y = x
if false then x else y = y

pub nat_beq_iff : (a b : ℕ) → (nat_beq a b ≡ true) ↔ (a ≡ b)
nat_beq_iff a b = ground arith

-- To split on a computed value and keep the equation.
pub Bool-cases : (b : Bool) → (b ≡ true) ⊎ (b ≡ false)
Bool-cases true = inl refl
Bool-cases false = inr refl

pub Option-cases {ℓ} : {A : Type ℓ} (o : Option A) → (o ≡ none) ⊎ ((a : A) × (o ≡ some a))
Option-cases none = inl refl
Option-cases (some a) = inr (a, refl)

abbrev pub is_some {ℓ} : {A : Type ℓ} → Option A → Bool
is_some none = false
is_some (some a) = true

-- A property of both branches, each under its test.
pub if_cases {ℓ κ} :
    {A : Type ℓ} (P : A → Type κ) (b : Bool) {x y : A}
    → (b ≡ true → P x)
    → (b ≡ false → P y)
    → P (if b then x else y)
if_cases P true hx hy = hx refl
if_cases P false hx hy = hy refl

-- JavaScript's `===` on the values that the program compares.
pub record Eq {κ} (K : Type κ) : Type κ where
  pub beq : K → K → Bool
  pub beq_iff : (j k : K) → (beq j k ≡ true) ↔ (j ≡ k)

-- The same for two conditionals on one test.
pub both_cases {ℓ κ} :
    {A : Type ℓ} (P : A → A → Type κ) (b : Bool) {x y x' y' : A}
    → (b ≡ true → P x x')
    → (b ≡ false → P y y')
    → P (if b then x else y) (if b then x' else y')
both_cases P true hx hy = hx refl
both_cases P false hx hy = hy refl

-- What a guarded result says of its guard.
pub if_some {ℓ} :
    {A : Type ℓ} (b : Bool) {x y : A} → (if b then some x else none) ≡ some y → (b ≡ true) × (x ≡ y)
if_some true p = (refl, cc)
if_some false p = cc

infix 50 ◌==◌
abbrev pub ◌==◌ {κ} : {K : Type κ} ⦃same : Eq K⦄ → K → K → Bool
◌==◌ ⦃same⦄ = same.beq

-- `o === value` for a field that may be null
abbrev pub is_the {ℓ} : {A : Type ℓ} → (A → A → Bool) → Option A → A → Bool
is_the eq none a = false
is_the eq (some b) a = eq b a

pub is_the-some :
    {A : Type 0} ⦃e : Eq A⦄ (o : Option A) (a : A) → is_the ◌==◌ o a ≡ true → o ≡ some a
is_the-some none a p = cc
is_the-some ⦃e⦄ (some b) a p = ap some ((e.beq_iff b a).0 p)

instance abbrev pub nat_eq : Eq ℕ
nat_eq = record { beq = nat_beq; beq_iff = nat_beq_iff }

abbrev pub bool_beq : Bool → Bool → Bool
bool_beq true b = b
bool_beq false true = false
bool_beq false false = true

pub bool_beq_iff : (a b : Bool) → (bool_beq a b ≡ true) ↔ (a ≡ b)
bool_beq_iff true true = ground arith
bool_beq_iff true false = ground arith
bool_beq_iff false true = ground arith
bool_beq_iff false false = ground arith

instance abbrev pub bool_eq : Eq Bool
bool_eq = record { beq = bool_beq; beq_iff = bool_beq_iff }
