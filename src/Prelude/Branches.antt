-- ===== src/Prelude/Branches.antt =====
-- A predicate of a branching term, from its branches.
use mathlib.Core.Path.{◌≡◌, refl}
use mathlib.Core.Bool.{Bool, true, false}
use mathlib.Core.Option.{Option, none, some}
use fix4_0_demo.Prelude.Tests.{if◌then◌else◌}

module _ {ℓ κ} {A : Type ℓ} (P : A → Type κ) where
  pub by_test : (b : Bool) {x y : A} → P x → P y → P (if b then x else y)
  by_test true p q = p
  by_test false p q = q

  pub by_option {μ} :
      {B : Type μ} (o : Option B) {x : A} {f : B → A}
      → P x
      → ((b : B) → P (f b))
      → P (elim o [ none ↦ x | some b ↦ f b ])
  by_option none p q = p
  by_option (some b) p q = q b

  -- The same, with what the test or the option was.
  pub by_test_of :
      (b : Bool) {x y : A} → (b ≡ true → P x) → (b ≡ false → P y) → P (if b then x else y)
  by_test_of true p q = p refl
  by_test_of false p q = q refl

  pub by_option_of {μ} :
      {B : Type μ} (o : Option B) {x : A} {f : B → A}
      → (o ≡ none → P x)
      → ((b : B) → o ≡ some b → P (f b))
      → P (elim o [ none ↦ x | some b ↦ f b ])
  by_option_of none p q = p refl
  by_option_of (some b) p q = q b refl
