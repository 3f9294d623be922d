-- ===== src/Base/Tests.antt =====
-- Boolean tests on the native numbers and on texts, and the conditional.
use Prim.Native.Nat.{ℕ, ◌≤◌, ◌<◌, compare, Ordering}
use Prim.Native.String.{String}
use mathlib.Core.Path.{◌≡◌, refl, sym, ◌∙◌}
use mathlib.Core.Logic.{◌⊎◌, inl, inr, ◌≢◌}
use mathlib.Core.Bool.{Bool, true, false, false≢true}
use mathlib.Core.Option.{Option, none, some}
use native.Mathlib.Omega.{arith}
use text.Mathlib.TextEquality.{eq_iff}
use text.Mathlib.Text.{◌==◌ as text_eq}

abbrev pub ltb : ℕ → ℕ → Bool
ltb a b = elim (compare a b) [ Ordering.lt ↦ true | _ ↦ false ]

abbrev pub leb : ℕ → ℕ → Bool
leb a b = elim (compare a b) [ Ordering.gt ↦ false | _ ↦ true ]

abbrev pub eqb : ℕ → ℕ → Bool
eqb a b = elim (compare a b) [ Ordering.eq ↦ true | _ ↦ false ]

infix 50 ◌==◌
abbrev pub ◌==◌ : String → String → Bool
a == b = text_eq a b

infix 1 if◌then◌else◌
abbrev pub if◌then◌else◌ {ℓ} : {A : Type ℓ} → Bool → A → A → A
if true then x else y = x
if false then x else y = y

pub ltb→lt : (a b : ℕ) → ltb a b ≡ true → a < b
ltb→lt a b h = ground arith

pub leb→le : (a b : ℕ) → leb a b ≡ true → a ≤ b
leb→le a b h = ground arith

pub leb_false→lt : (a b : ℕ) → leb a b ≡ false → b < a
leb_false→lt a b h = ground arith

-- To split on a computed value and keep the equation.
pub Bool-cases : (b : Bool) → (b ≡ true) ⊎ (b ≡ false)
Bool-cases true = inl refl
Bool-cases false = inr refl

pub Option-cases {ℓ} : {A : Type ℓ} (o : Option A) → (o ≡ none) ⊎ ((a : A) × (o ≡ some a))
Option-cases none = inl refl
Option-cases (some a) = inr (a, refl)

pub ==→eq : (a b : String) → (a == b) ≡ true → a ≡ b
==→eq a b = (eq_iff a b).0

pub eq→== : (a b : String) → a ≡ b → (a == b) ≡ true
eq→== a b = (eq_iff a b).1

pub ==_self : (a : String) → (a == a) ≡ true
==_self a = (eq_iff a a).1 refl

pub ne→==_false : (a b : String) → a ≢ b → (a == b) ≡ false
ne→==_false a b h = elim (Bool-cases (a == b)) [ inl e ↦ absurd (h (==→eq a b e)) | inr e ↦ e ]

-- Which of four texts a text is, if any.
pub text_cases :
    (s a b c d : String)
    → (s ≡ a)
      ⊎ (s ≡ b)
      ⊎ (s ≡ c)
      ⊎ (s ≡ d)
      ⊎ (((s == a) ≡ false) × ((s == b) ≡ false) × ((s == c) ≡ false) × ((s == d) ≡ false))
text_cases s a b c d = ground (arith, eq_iff s a, eq_iff s b, eq_iff s c, eq_iff s d)

pub ==_symm : (a b : String) → (a == b) ≡ (b == a)
==_symm a b = ground (arith, eq_iff a b, eq_iff b a)

-- What both branches have, the whole has.
pub if_cases {ℓ κ} :
    {A : Type κ} (P : A → Type ℓ) {x y : A} (b : Bool)
    → (b ≡ true → P x)
    → (b ≡ false → P y)
    → P (if b then x else y)
if_cases P true done kept = done refl
if_cases P false done kept = kept refl

pub ne_of_test : {s t : String} → (s == t) ≡ false → s ≢ t
ne_of_test {s} {t} miss e = false≢true (sym miss ∙ eq→== s t e)
