-- ===== src/Fix/Message.antt =====
-- include/fix/fix_codec.hpp, class FixMessage, and include/fix/fix_tags.hpp. The unordered map of
-- fields is an association list with one entry for each tag; an exception is an `err`.
pub mod Laws
use fix4_0_demo.Prelude.{
  ℕ, ◌≡◌, Bool, true, false, List, [], ◌∷◌, Option, none, some, ℤ, pos, eqb_ℤ, if◌then◌else◌, Text,
  print_ℤ, stoi, is_some, text_eq, map, false,
}

-- The exceptions that the protocol layer throws.
pub data Error : Type 0 where
  tag_not_found : ℤ → Error
  bad_number : Text → Error
  checksum_not_found : Error
  checksum_mismatch : Text → Text → Error
  invalid_field : Text → Error
  body_length_mismatch : ℤ → ℕ → Error
  invalid_body_length : Error
  buffer_limit_exceeded : Error

pub data Result {ℓ} (A : Type ℓ) : Type ℓ where
  ok : A → Result A
  err : Error → Result A

infixl 5 ◌>>=◌
abbrev pub ◌>>=◌ {ℓ κ} : {A : Type ℓ} {B : Type κ} → Result A → (A → Result B) → Result B
ok a >>= f = f a
err e >>= f = err e

abbrev pub or_throw {ℓ} : {A : Type ℓ} → Option A → Error → Result A
or_throw none e = err e
or_throw (some a) e = ok a

-- `fields_[tag]` for each tag that is set.
abbrev pub FixMessage : Type 0
FixMessage = List (ℤ × Text)

unfoldable pub find_field : ℤ → FixMessage → Option Text
find_field tag [] = none
find_field tag ((t, v) ∷ fields) = if eqb_ℤ t tag then some v else find_field tag fields

unfoldable pub set : ℤ → Text → FixMessage → FixMessage
set tag value [] = (tag, value) ∷ []
set tag value ((t, v) ∷ fields) =
    if eqb_ℤ t tag then (t, value) ∷ fields else (t, v) ∷ set tag value fields

unfoldable pub set_int : ℤ → ℤ → FixMessage → FixMessage
unfolding set
set_int tag value fields = set tag (print_ℤ value) fields

unfoldable pub has : ℤ → FixMessage → Bool
unfolding find_field
has tag fields = is_some (find_field tag fields)

unfoldable pub get_string : ℤ → FixMessage → Result Text
unfolding find_field
get_string tag fields = or_throw (find_field tag fields) (tag_not_found tag)

unfoldable pub get_int : ℤ → FixMessage → Result ℤ
unfolding get_string
get_int tag fields = do value ← get_string tag fields; or_throw (stoi value) (bad_number value)

-- `msg.has(tag) && msg.get_string(tag) == value`
abbrev pub field_is : ℤ → Text → FixMessage → Bool
field_is tag value msg = elim (get_string tag msg) [ ok v ↦ text_eq v value | err _ ↦ false ]
