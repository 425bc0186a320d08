-- ===== src/Prelude/Keys.antt =====
-- Maps with a decidable key, as association lists. Iteration order is the order of insertion.
use Prim.Native.Nat.{ℕ}
use Prim.Native.String.{String}
use mathlib.Core.Path.{◌≡◌, refl}
use mathlib.Core.Logic.{◌↔◌}
use mathlib.Core.Bool.{Bool, true, false}
use mathlib.Core.Option.{Option, none, some}
use mathlib.Core.List.{List, [], ◌∷◌}
use native.Mathlib.Omega.{arith}
use text.Mathlib.Text.{◌==◌ as str_eq}
use text.Mathlib.TextEquality.{eq_iff}
use percona_load_generator_m.Prelude.Tests.{◌==◌, ==_iff, if◌then◌else◌}
use percona_load_generator_m.Prelude.Int.{ℤ, eqb_ℤ, eqb_ℤ_iff}

pub record Eq {ℓ} (A : Type ℓ) : Type ℓ where
  pub beq : A → A → Bool
  pub beq_iff : (a b : A) → (beq a b ≡ true) ↔ (a ≡ b)

infix 50 ◌=?◌
abbrev pub ◌=?◌ {ℓ} : {A : Type ℓ} ⦃e : Eq A⦄ → A → A → Bool
◌=?◌ ⦃e⦄ = e.beq

instance abbrev pub nat_eq : Eq ℕ
nat_eq = record { beq = ◌==◌; beq_iff = ==_iff }

instance abbrev pub int_eq : Eq ℤ
int_eq = record { beq = eqb_ℤ; beq_iff = eqb_ℤ_iff }

instance abbrev pub string_eq : Eq String
string_eq = record { beq = str_eq; beq_iff = eq_iff }

pub beq_refl {ℓ} : {A : Type ℓ} ⦃e : Eq A⦄ (a : A) → (a =? a) ≡ true
beq_refl ⦃e⦄ a = (e.beq_iff a a).1 refl

module _ {ℓ} {K : Type ℓ} ⦃e : Eq K⦄ where
  unfoldable pub contains : K → List K → Bool
  contains k [] = false
  contains k (j ∷ js) = if j =? k then true else contains k js

  module _ {V : Type ℓ} where
    unfoldable pub lookup : K → List (K × V) → Option V
    lookup k [] = none
    lookup k ((j, v) ∷ m) = if j =? k then some v else lookup k m

    unfoldable pub insert : K → V → List (K × V) → List (K × V)
    insert k v [] = (k, v) ∷ []
    insert k v ((j, w) ∷ m) = if j =? k then (k, v) ∷ m else (j, w) ∷ insert k v m

    pub lookup-insert :
        (k j : K) (v : V) (m : List (K × V))
        → lookup j (insert k v m) ≡ (if k =? j then some v else lookup j m)
    unfolding lookup insert
    lookup-insert k j v [] = refl
    lookup-insert k j v ((i, w) ∷ m) =
        ground (arith, e.beq_iff k j, e.beq_iff i k, e.beq_iff i j, lookup-insert k j v m)
