-- ===== src/Prelude/Search.antt =====
-- `std::string::find`, `rfind` and `substr`, on texts.
use Prim.Native.Nat.{ℕ, suc, ◌+◌}
use mathlib.Core.Path.{◌≡◌, refl}
use mathlib.Core.Logic.{◌≢◌}
use mathlib.Core.Bool.{Bool, true, false, ◌&&◌}
use mathlib.Core.List.{[], ◌∷◌, ◌++◌}
use mathlib.Core.Option.{Option, none, some}
use mathlib.Core.Option
use native.Mathlib.Omega.{arith}
use fix4_0_demo.Prelude.Tests.{◌==◌, if◌then◌else◌}
use fix4_0_demo.Prelude.Lists.{length, drop, All}
use fix4_0_demo.Prelude.Bytes.{Text}

unfoldable pub starts_with : Text → Text → Bool
starts_with [] s = true
starts_with (p ∷ ps) [] = false
starts_with (p ∷ ps) (c ∷ s) = p == c && starts_with ps s

-- The position of the first occurrence.
unfoldable pub find : Text → Text → Option ℕ
unfolding starts_with
find pat [] = if starts_with pat [] then some 0 else none
find pat (c ∷ s) =
    let later = Option.map suc (find pat s) in if starts_with pat (c ∷ s) then some 0 else later

-- From a position on.
unfoldable pub find_from : Text → Text → ℕ → Option ℕ
unfolding find
find_from pat s position = Option.map (◌+◌ position) (find pat (drop position s))

-- The position of the last occurrence.
unfoldable pub rfind : Text → Text → Option ℕ
unfolding starts_with
rfind pat [] = if starts_with pat [] then some 0 else none
rfind pat (c ∷ s) = elim (rfind pat s) [
  | some n ↦ some (suc n)
  | none ↦ if starts_with pat (c ∷ s) then some 0 else none
]

pub starts_with-append : (pat s : Text) → starts_with pat (pat ++ s) ≡ true
unfolding starts_with
starts_with-append [] s = refl
starts_with-append (p ∷ pat) s = ground (arith, starts_with-append pat s)

-- A prefix is found at once.
pub find-append : (pat s : Text) → find pat (pat ++ s) ≡ some 0
unfolding find
find-append [] [] = refl
find-append [] (c ∷ s) = refl
find-append (p ∷ pat) s = rw (starts_with-append (p ∷ pat) s)

-- Bytes that differ from the one sought are passed over.
pub find-skip :
    (b : ℕ) (xs s : Text) → All (λ c. c ≢ b) xs → find (b ∷ []) (xs ++ b ∷ s) ≡ some (length xs)
unfolding find starts_with
find-skip b [] s h = ground arith
find-skip b (x ∷ xs) s h = ground (arith, find-skip b xs s h.1)
