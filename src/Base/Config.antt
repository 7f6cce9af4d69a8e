-- ===== src/Base/Config.antt =====
-- include/base/config.hpp and src/base/config.cpp. A file is the text of it, or none where it cannot
-- be opened; the maps are association lists (Prelude/Maps), and the mutex is left out.
pub mod Trimming
pub mod Reading
use fix4_0_demo.Prelude.{
  ℕ, ◌==◌, ◌-◌, suc, Bool, true, false, ◌&&◌, ◌||◌, not, List, [], ◌∷◌, Option, none, some,
  if◌then◌else◌, length, take, drop, Text, find, is_empty, stoi, ℤ, Map, lookup, put,
}

abbrev pub is_whitespace : ℕ → Bool
is_whitespace c = c == 32 || c == 9 || c == 10 || c == 13 || c == 12 || c == 11

-- From the first byte that is not white space on.
unfoldable pub trim_start : Text → Text
trim_start [] = []
trim_start (c ∷ text) = let rest = trim_start text in if is_whitespace c then rest else c ∷ text

-- A byte in front of a text that ends where its white space at the end begins.
abbrev pub put_before : ℕ → Text → Text
put_before c [] = if is_whitespace c then [] else c ∷ []
put_before c (b ∷ rest) = c ∷ b ∷ rest

-- Up to the last byte that is not white space.
unfoldable pub trim_end : Text → Text
trim_end [] = []
trim_end (c ∷ text) = put_before c (trim_end text)

unfoldable pub trim : Text → Text
trim text = trim_end (trim_start text)

abbrev pub Settings : Type 0
Settings = Map (Map Text)

-- `data_[section]`, which is empty at first.
abbrev pub section_of : Text → Settings → Map Text
section_of section data_ = elim (lookup section data_) [ none ↦ [] | some entries ↦ entries ]

abbrev pub set : Text → Text → Text → Settings → Settings
set section key value data_ = put section (put key value (section_of section data_)) data_

abbrev pub begins_with : ℕ → Text → Bool
begins_with b [] = false
begins_with b (c ∷ _) = c == b

unfoldable pub ends_with : ℕ → Text → Bool
ends_with b [] = false
ends_with b (c ∷ []) = c == b
ends_with b (_ ∷ c ∷ text) = ends_with b (c ∷ text)

-- A line of a section, as the loop of `load` takes it; the section and the settings so far.
unfoldable pub load_setting : Text → Text × Settings → Text × Settings
load_setting line (section, data_) = elim (find (b'=' ∷ []) line) [
  | none ↦ (section, data_)
  | some delimiter_pos ↦
      let key = trim (take delimiter_pos line) in
      let value = trim (drop (suc delimiter_pos) line) in
      if is_empty key then (section, data_) else (section, set section key value data_)
]

-- A line that is empty, and a comment.
abbrev pub is_skipped : Text → Bool
is_skipped line = is_empty line || begins_with b'#' line || begins_with b';' line

abbrev pub is_section : Text → Bool
is_section line = begins_with b'[' line && ends_with b']' line

unfoldable pub load_line : Text → Text × Settings → Text × Settings
load_line raw (section, data_) =
    let line = trim raw in
    if is_skipped line
    then (section, data_)
    else if is_section line
    then (trim (take (length line - 2) (drop 1 line)), data_)
    else load_setting line (section, data_)

unfoldable pub load_lines : List Text → Text × Settings → Text × Settings
load_lines [] loaded = loaded
load_lines (line ∷ lines) loaded = load_lines lines (load_line line loaded)

-- `std::getline`: a last line without a line feed counts if it is not empty.
abbrev pub in_front : ℕ → List Text → List Text
in_front c [] = (c ∷ []) ∷ []
in_front c (line ∷ lines) = (c ∷ line) ∷ lines

unfoldable pub get_lines : Text → List Text
get_lines [] = []
get_lines (c ∷ text) = let rest = get_lines text in if c == 10 then [] ∷ rest else in_front c rest

unfoldable pub load : Option Text → Bool × Settings
load none = (false, [])
load (some text) = (true, (load_lines (get_lines text) ([], [])).1)

unfoldable pub get : Text → Text → Text → Settings → Text
get section key default_value data_ = elim (lookup section data_) [
  | none ↦ default_value
  | some entries ↦ elim (lookup key entries) [ none ↦ default_value | some value ↦ value ]
]

abbrev pub get_int : Text → Text → ℤ → Settings → ℤ
get_int section key default_value data_ =
    let text = get section key [] data_ in
    if is_empty text then default_value else elim (stoi text) [ none ↦ default_value | some n ↦ n ]
