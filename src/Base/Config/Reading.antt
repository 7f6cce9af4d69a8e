-- ===== src/Base/Config/Reading.antt =====
-- src/base/config.cpp: a setting that is written in a line is what is read.
use fix4_0_demo.Prelude.{
  suc, ◌≡◌, ◌≢◌, refl, [], ◌∷◌, ◌++◌, All, Text, length, drop, take-append_length, find-skip, put,
  lookup-put_self, arith,
}
use fix4_0_demo.Base.Config.{Settings, section_of, set, load_setting, load_line, get}
use fix4_0_demo.Base.Config.Trimming.{IsTrimmed}

-- A name that a line can begin with as a key.
abbrev pub IsKey : Text → Type 0
IsKey [] = ⊥
IsKey (c ∷ key) =
    (c ≢ b'#') × (c ≢ b';') × (c ≢ b'[') × All (λ b. b ≢ b'=') (c ∷ key) × IsTrimmed (c ∷ key)

drop-key : (key value : Text) → drop (suc (length key)) (key ++ b'=' ∷ value) ≡ value
drop-key [] value = refl
drop-key (c ∷ key) value = drop-key key value

get-set :
    (section key value default_value : Text) (data_ : Settings)
    → get section key default_value (set section key value data_) ≡ value
unfolding get
get-set section key value default_value data_ =
    rw (lookup-put_self section (put key value (section_of section data_)) data_, get)
      (rw (lookup-put_self key value (section_of section data_)) refl)

load_setting-set :
    (section key value : Text) (data_ : Settings)
    → IsKey key
    → IsTrimmed value
    → load_setting (key ++ b'=' ∷ value) (section, data_) ≡ (section, set section key value data_)
unfolding load_setting
load_setting-set section [] value data_ k v = absurd k
load_setting-set section (c ∷ key) value data_ (_, _, _, letters, trimmed) v =
    rw (find-skip b'=' (c ∷ key) value letters, load_setting)
      (rw (take-append_length (c ∷ key) (b'=' ∷ value))
        (rw (drop-key (c ∷ key) value) (rw trimmed (rw v refl))))

-- The first byte of a key says that its line is a setting.
load_line-key :
    (section key value : Text) (data_ : Settings)
    → IsKey key
    → IsTrimmed (key ++ b'=' ∷ value)
    → load_line (key ++ b'=' ∷ value) (section, data_)
      ≡ load_setting (key ++ b'=' ∷ value) (section, data_)
unfolding load_line
load_line-key section [] value data_ k l = absurd k
load_line-key section (c ∷ key) value data_ (hash, semicolon, bracket, _, _) l =
    rw (l, load_line) (ground (arith, hash, semicolon, bracket))

-- A line with a key, an equals sign and a value sets this key of the section to this value, if none
-- of them has white space around it, the key has no equals sign, and the line does not begin as a
-- comment or a section does.
pub get-load_line :
    (section key value default_value : Text) (data_ : Settings)
    → IsKey key
    → IsTrimmed value
    → IsTrimmed (key ++ b'=' ∷ value)
    → get section key default_value (load_line (key ++ b'=' ∷ value) (section, data_)).1 ≡ value
get-load_line section key value default_value data_ k v l =
    rw (load_line-key section key value data_ k l) (
      rw (load_setting-set section key value data_ k v)
        (get-set section key value default_value data_))
