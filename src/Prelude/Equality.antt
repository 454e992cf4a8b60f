-- ===== src/Prelude/Equality.antt =====
-- The `==` of the source, by instances: a decision for each comparable type.
use Prim.Native.Nat.{ℕ}
use Prim.Native.String.{String}
use mathlib.Core.Path.{◌≡◌}
use mathlib.Core.Logic.{inl, inr, ◌≢◌}
use mathlib.Core.Bool.{Bool, true, false}
use native.Mathlib.Decide.{ℕ_discrete}
use native.Mathlib.Omega.{arith}
use text.Mathlib.Text.{◌==◌ as str_eq}
use text.Mathlib.TextEquality.{eq_iff}
use discovery_client.Prelude.Tests.{Bool-cases}

pub record Eq {ℓ} (A : Type ℓ) : Type ℓ where
  pub eq_dec : Discrete A

pub str_ne : (s t : String) → str_eq s t ≡ false → s ≢ t
str_ne s t e p = ground (arith, eq_iff s t)

unfoldable pub String_discrete : Discrete String
unfolding Bool-cases
String_discrete s t = elim (Bool-cases (str_eq s t)) [
  | inl e ↦ yes ((eq_iff s t).0 e)
  | inr e ↦ no (str_ne s t e)
]

-- Two texts, numbers, keys, are compared by `==`.
infix 50 ◌==◌
abbrev pub ◌==◌ {ℓ} : {A : Type ℓ} ⦃e : Eq A⦄ → A → A → Bool
◌==◌ ⦃e⦄ a b = elim (e.eq_dec a b) [ yes _ ↦ true | no _ ↦ false ]

instance abbrev pub ℕ_eq : Eq ℕ
ℕ_eq = record { eq_dec = ℕ_discrete }

instance abbrev pub String_eq : Eq String
String_eq = record { eq_dec = String_discrete }

unfoldable pub Bool_discrete : Discrete Bool
Bool_discrete = hlevel

instance abbrev pub Bool_eq : Eq Bool
Bool_eq = record { eq_dec = Bool_discrete }

pub eq_self {ℓ} : {A : Type ℓ} ⦃e : Eq A⦄ (a : A) → (a == a) ≡ true
eq_self a = ground arith

pub eq_of_beq {ℓ} : {A : Type ℓ} ⦃e : Eq A⦄ (a b : A) → (a == b) ≡ true → a ≡ b
eq_of_beq a b h = ground arith
