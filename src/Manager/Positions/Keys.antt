-- ===== src/Manager/Positions/Keys.antt =====
-- `PositionManager::makeKey`: an account, an underscore and an instrument.
use fix4_0_demo.Prelude.{
  ℕ, ◌≡◌, ◌≢◌, refl, sym, ◌∙◌, ap, [], ◌∷◌, ◌++◌, Text, codes, All, subst, append_assoc,
}
use fix4_0_demo.Manager.Positions.{make_key}

abbrev pub HasNoUnderscore : Text → Type 0
HasNoUnderscore text = All (λ c. c ≢ b'_') text

abbrev head_or : Text → ℕ → ℕ
head_or [] c = c
head_or (x ∷ xs) c = x

abbrev rest_of : Text → Text
rest_of [] = []
rest_of (x ∷ xs) = xs

underscore_inside : (a i : Text) → HasNoUnderscore (a ++ b'_' ∷ i) → ⊥
underscore_inside [] i h = h.0 refl
underscore_inside (x ∷ a) i h = underscore_inside a i h.1

join-injective :
    (a b i j : Text)
    → HasNoUnderscore i
    → HasNoUnderscore j
    → a ++ b'_' ∷ i ≡ b ++ b'_' ∷ j
    → (a ≡ b) × (i ≡ j)
join-injective [] [] i j hi hj e = (refl, ap rest_of e)
join-injective [] (y ∷ b) i j hi hj e =
    absurd (underscore_inside b j (subst HasNoUnderscore (ap rest_of e) hi))
join-injective (x ∷ a) [] i j hi hj e =
    absurd (underscore_inside a i (subst HasNoUnderscore (sym (ap rest_of e)) hj))
join-injective (x ∷ a) (y ∷ b) i j hi hj e =
    let rest = join-injective a b i j hi hj (ap rest_of e) in
    let first : x ≡ y = ap (λ (t : Text). head_or t 0) e in
    (ap (λ (c : ℕ). c ∷ a) first ∙ ap (λ (t : Text). y ∷ t) rest.0, rest.1)

-- Two keys are the same only for the same account and instrument, if the instruments have no
-- underscore in their names.
pub make_key-injective :
    (account account' instrument instrument' : Text)
    → HasNoUnderscore instrument
    → HasNoUnderscore instrument'
    → make_key account instrument ≡ make_key account' instrument'
    → (account ≡ account') × (instrument ≡ instrument')
make_key-injective a b i j hi hj e =
    join-injective a b i j hi hj
      (sym (append_assoc a (codes "_") i) ∙ e ∙ append_assoc b (codes "_") j)
