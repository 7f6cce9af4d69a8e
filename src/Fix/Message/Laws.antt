-- ===== src/Fix/Message/Laws.antt =====
-- The field map of FixMessage (include/fix/fix_codec.hpp) as a map.
use fix4_0_demo.Prelude.{
  ◌≡◌, refl, [], ◌∷◌, some, ℤ, eqb_ℤ, eqb_ℤ_iff, eqb_ℤ_refl, if◌then◌else◌, Text, arith,
}
use fix4_0_demo.Fix.Message.{FixMessage, find_field, set, get_string, ok}

-- After a tag is set, looking it up finds the new value, and other tags are as before.
pub find_field-set :
    (tag t : ℤ) (value : Text) (m : FixMessage)
    → find_field t (set tag value m) ≡ (if eqb_ℤ tag t then some value else find_field t m)
unfolding find_field set
find_field-set tag t value [] = refl
find_field-set tag t value ((u, v) ∷ m) =
    ground (arith, eqb_ℤ_iff u tag, eqb_ℤ_iff u t, eqb_ℤ_iff tag t, find_field-set tag t value m)

pub get_string-set_self :
    (tag : ℤ) (value : Text) (m : FixMessage) → get_string tag (set tag value m) ≡ ok value
unfolding get_string
get_string-set_self tag value m = rw (find_field-set tag tag value m, eqb_ℤ_refl tag) refl
