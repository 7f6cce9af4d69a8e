-- ===== src/Fix/Session/Run.antt =====
-- A step of a session that may throw: the session as it is then is kept.
use fix4_0_demo.Prelude.{◌≡◌, refl, Bool, if◌then◌else◌}
use fix4_0_demo.Fix.Message.{Result, Error, ok, err}
use fix4_0_demo.Fix.Session.{Session}

abbrev pub Run : Type 0 → Type 0 → Type 0
Run S A = Session S → Result A × Session S

-- A predicate of a term that branches on a result, from its branches.
pub by_result {ℓ κ} :
    {A : Type 0} {X : Type ℓ} (P : X → Type κ) (r : Result A) {f : A → X} {g : Error → X}
    → ((a : A) → r ≡ ok a → P (f a))
    → ((e : Error) → P (g e))
    → P (elim r [ ok a ↦ f a | err e ↦ g e ])
by_result P (ok a) p q = p a refl
by_result P (err e) p q = q e

module _ {S : Type 0} where
  infixl 5 ◌>>=◌ ◌>>◌
  unfoldable pub ◌>>=◌ : {A B : Type 0} → Run S A → (A → Run S B) → Run S B
  ◌>>=◌ m f s = elim (m s).0 [ ok a ↦ f a (m s).1 | err e ↦ (err e, (m s).1) ]

  abbrev pub ◌>>◌ : {B : Type 0} → Run S (Unit {0}) → Run S B → Run S B
  m >> k = m >>= λ _. k

  abbrev pub skip : Run S (Unit {0})
  skip s = (ok tt, s)

  -- A step that cannot throw.
  abbrev pub modify : (Session S → Session S) → Run S (Unit {0})
  modify f s = (ok tt, f s)

  abbrev pub lift : {A : Type 0} → Result A → Run S A
  lift r s = (r, s)

  abbrev pub when : Bool → Run S (Unit {0}) → Run S (Unit {0})
  when condition m = if condition then m else skip

  -- Go on with the session as it is.
  abbrev pub with_session : {A : Type 0} → (Session S → Run S A) → Run S A
  with_session f s = f s s
