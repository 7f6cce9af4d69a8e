-- ===== src/Base/Config/Trimming.antt =====
-- src/base/config.cpp: the settings that are read have no white space around them.
use fix4_0_demo.Prelude.{
  ℕ, suc, ◌≡◌, refl, false, Bool-cases, inl, inr, by_test, by_option, by_option_of, List, [], ◌∷◌,
  Option, none, some, Text, is_empty, take, drop, find, lookup, AllValues, AllValues-put,
  AllValues-lookup,
}
use fix4_0_demo.Base.Config.{
  is_whitespace, trim_start, put_before, trim_end, trim, Settings, is_skipped, is_section,
  section_of, set, load_setting, load_line, load_lines, get_lines, load, get,
}

abbrev pub IsTrimmed : Text → Type 0
IsTrimmed text = trim text ≡ text

put_before-put_before :
    (c : ℕ) (text : Text) → trim_end text ≡ text → trim_end (put_before c text) ≡ put_before c text
unfolding trim_end
put_before-put_before c [] h = elim (Bool-cases (is_whitespace c)) [
  | inl e ↦ rw e refl
  | inr e ↦ rw (e, e) refl
]
put_before-put_before c (b ∷ text) h = rw h refl

trim_end-trim_end : (text : Text) → trim_end (trim_end text) ≡ trim_end text
unfolding trim_end
trim_end-trim_end [] = refl
trim_end-trim_end (c ∷ text) = put_before-put_before c (trim_end text) (trim_end-trim_end text)

trim_start-put_before :
    (c : ℕ) (text : Text)
    → is_whitespace c ≡ false
    → trim_start (put_before c text) ≡ put_before c text
unfolding trim_start
trim_start-put_before c [] h = rw (h, h) refl
trim_start-put_before c (b ∷ text) h = rw h refl

-- The start stays trimmed when the end is trimmed.
trim_start-trim :
    (text : Text) → trim_start (trim_end (trim_start text)) ≡ trim_end (trim_start text)
unfolding trim_start trim_end
trim_start-trim [] = refl
trim_start-trim (c ∷ text) = elim (Bool-cases (is_whitespace c)) [
  | inl e ↦ rw e (trim_start-trim text)
  | inr e ↦ rw e (trim_start-put_before c (trim_end text) e)
]

trim-IsTrimmed : (text : Text) → IsTrimmed (trim text)
unfolding trim
trim-IsTrimmed text = rw (trim_start-trim text) (trim_end-trim_end (trim_start text))

-- Every value of a section is trimmed.
abbrev AreTrimmed : Settings → Type 0
AreTrimmed data_ = AllValues (AllValues IsTrimmed) data_

AreTrimmed-set :
    (section key value : Text) (data_ : Settings)
    → IsTrimmed value
    → AreTrimmed data_
    → AreTrimmed (set section key value data_)
AreTrimmed-set section key value data_ v h =
    AllValues-put (AllValues IsTrimmed) section _ data_
      (AllValues-put IsTrimmed key value (section_of section data_) v (
        by_option_of (AllValues IsTrimmed) (lookup section data_) (λ _. tt)
          (λ entries e. AllValues-lookup (AllValues IsTrimmed) section entries data_ h e)))
      h

-- What a section and the settings so far keep.
abbrev Keeps : Text × Settings → Type 0
Keeps loaded = AreTrimmed loaded.1

Keeps-load_setting :
    (line section : Text) (data_ : Settings)
    → AreTrimmed data_
    → Keeps (load_setting line (section, data_))
unfolding load_setting
Keeps-load_setting line section data_ h = by_option Keeps (find (b'=' ∷ []) line) h (λ pos.
    by_test Keeps (is_empty (trim (take pos line))) h
      (AreTrimmed-set section _ _ data_ (trim-IsTrimmed (drop (suc pos) line)) h))

Keeps-load_line :
    (line section : Text) (data_ : Settings)
    → AreTrimmed data_
    → Keeps (load_line line (section, data_))
unfolding load_line
Keeps-load_line line section data_ h =
    by_test Keeps (is_skipped (trim line)) h
      (by_test Keeps (is_section (trim line)) h (Keeps-load_setting (trim line) section data_ h))

Keeps-load_lines :
    (lines : List Text) (loaded : Text × Settings) → Keeps loaded → Keeps (load_lines lines loaded)
unfolding load_lines
Keeps-load_lines [] loaded h = h
Keeps-load_lines (line ∷ lines) loaded h =
    Keeps-load_lines lines (load_line line loaded) (Keeps-load_line line loaded.0 loaded.1 h)

load-AreTrimmed : (file : Option Text) → AreTrimmed (load file).1
unfolding load
load-AreTrimmed none = tt
load-AreTrimmed (some text) = Keeps-load_lines (get_lines text) ([], []) tt

-- What `get` answers after a file was read has no white space before or after it, if the default
-- has none.
pub get-load-IsTrimmed :
    (file : Option Text) (section key default_value : Text)
    → IsTrimmed default_value
    → IsTrimmed (get section key default_value (load file).1)
unfolding get
get-load-IsTrimmed file section key default_value h =
    let data_ = (load file).1 in
    by_option_of IsTrimmed (lookup section data_) (λ _. h)
      (λ entries e.
        by_option_of IsTrimmed (lookup key entries) (λ _. h)
          (λ value v.
            AllValues-lookup IsTrimmed key value entries
              (AllValues-lookup (AllValues IsTrimmed) section entries data_ (load-AreTrimmed file)
                e)
              v))
