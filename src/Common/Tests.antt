-- ===== src/Common/Tests.antt =====
-- Boolean tests on the native numbers, the conditional, and splits that keep the equation.
use Prim.Native.Nat.{ℕ, ◌≤◌, ◌<◌, compare, Ordering}
use mathlib.Core.Path.{◌≡◌, refl, sym, subst}
use mathlib.Core.Logic.{◌↔◌, ◌⊎◌, inl, inr, ite, if_pos, if_neg}
use mathlib.Core.Bool.{Bool, true, false}
use mathlib.Core.Option.{Option, none, some}
use native.Mathlib.Omega.{arith}

abbrev pub ltb : ℕ → ℕ → Bool
ltb a b = elim (compare a b) [ Ordering.lt ↦ true | _ ↦ false ]

abbrev pub leb : ℕ → ℕ → Bool
leb a b = elim (compare a b) [ Ordering.gt ↦ false | _ ↦ true ]

infix 50 ◌==◌
abbrev pub ◌==◌ : ℕ → ℕ → Bool
a == b = elim (compare a b) [ Ordering.eq ↦ true | _ ↦ false ]

infix 1 if◌then◌else◌
abbrev pub if◌then◌else◌ {ℓ} : {A : Type ℓ} → Bool → A → A → A
if true then x else y = x
if false then x else y = y

pub ltb→lt : (a b : ℕ) → ltb a b ≡ true → a < b
ltb→lt a b h = ground arith

pub lt→ltb : (a b : ℕ) → a < b → ltb a b ≡ true
lt→ltb a b h = ground arith

pub leb→le : (a b : ℕ) → leb a b ≡ true → a ≤ b
leb→le a b h = ground arith

pub ==_iff : (a b : ℕ) → ((a == b) ≡ true) ↔ (a ≡ b)
==_iff a b = ground arith

pub Bool-cases : (b : Bool) → (b ≡ true) ⊎ (b ≡ false)
Bool-cases true = inl refl
Bool-cases false = inr refl

pub Option-cases {ℓ} : {A : Type ℓ} (o : Option A) → (o ≡ none) ⊎ ((a : A) × (o ≡ some a))
Option-cases none = inl refl
Option-cases (some a) = inr (a, refl)

-- What holds of both branches holds of the conditional.
pub if_both {ℓ κ} :
    {A : Type ℓ} (Q : A → Type κ) (b : Bool) (x y : A) → Q x → Q y → Q (if b then x else y)
if_both Q true x y hx hy = hx
if_both Q false x y hx hy = hy

pub ite_both {ℓ κ ι} :
    {P : Type ι} {A : Type ℓ} (Q : A → Type κ) (d : Dec P) (x y : A) → Q x → Q y → Q (ite d x y)
ite_both Q (yes p) x y hx hy = subst Q (sym (if_pos (yes p) p x y)) hx
ite_both Q (no n) x y hx hy = subst Q (sym (if_neg (no n) n x y)) hy

-- What holds of the branch that is taken.
pub if_false {ℓ κ} :
    {A : Type ℓ} (Q : A → Type κ) (b : Bool) (x y : A) → b ≡ false → Q y → Q (if b then x else y)
if_false Q true x y e hy = absurd (cc (e))
if_false Q false x y e hy = hy

pub ite_no {ℓ κ ι} :
    {P : Type ι} {A : Type ℓ} (Q : A → Type κ) (d : Dec P) (x y : A) → ¬ P → Q y → Q (ite d x y)
ite_no Q d x y n hy = subst Q (sym (if_neg d n x y)) hy

pub ite_split {ℓ κ ι} :
    {P : Type ι} {A : Type ℓ} (Q : A → Type κ) (d : Dec P) (x y : A)
    → (P → Q x)
    → Q y
    → Q (ite d x y)
ite_split Q (yes p) x y hx hy = subst Q (sym (if_pos (yes p) p x y)) (hx p)
ite_split Q (no n) x y hx hy = subst Q (sym (if_neg (no n) n x y)) hy

pub if_split {ℓ κ} :
    {A : Type ℓ} (Q : A → Type κ) (b : Bool) (x y : A)
    → (b ≡ true → Q x)
    → (b ≡ false → Q y)
    → Q (if b then x else y)
if_split Q true x y hx hy = hx refl
if_split Q false x y hx hy = hy refl
