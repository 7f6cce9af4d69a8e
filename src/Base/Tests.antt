-- ===== src/Base/Tests.antt =====
-- Settings that are read from a text.
use fix4_0_demo.Prelude.{
  ◌≡◌, refl, some, [], ◌∷◌, ◌++◌, Text, codes, pos, find, starts_with, lookup, put, text_eq, arith,
}
use fix4_0_demo.Base.Config.{
  trim, trim_start, trim_end, ends_with, load_setting, load_line, load_lines, get_lines, load, get,
  get_int,
}
use fix4_0_demo.Base.Config.Trimming.{IsTrimmed}
use fix4_0_demo.Base.Config.Reading.{IsKey, get-load_line}

abbrev file : Text
file =
    codes "; the server"
    ++ 10 ∷ codes "[ server ]"
    ++ 10 ∷ codes "name = a b "
    ++ 13 ∷ 10 ∷ codes "port=9000"
    ++ 10 ∷ []

name_read : get (codes "server") (codes "name") [] (load (some file)).1 ≡ codes "a b"
unfolding trim trim_start trim_end ends_with load_setting load_line load_lines get_lines load get
    find starts_with lookup put text_eq
name_read = refl

port_absent : get_int (codes "server") (codes "ports") (pos 7) (load (some file)).1 ≡ pos 7
unfolding trim trim_start trim_end ends_with load_setting load_line load_lines get_lines load get
    find starts_with lookup put text_eq
port_absent = refl

none_IsTrimmed : IsTrimmed (codes "none")
unfolding trim trim_start trim_end
none_IsTrimmed = refl

port_IsKey : IsKey (codes "port")
unfolding trim trim_start trim_end
port_IsKey = (
  omega arith,
  omega arith,
  omega arith,
  (omega arith, (omega arith, (omega arith, (omega arith, tt)))),
  refl,
)

value_IsTrimmed : IsTrimmed (codes "a=b")
unfolding trim trim_start trim_end
value_IsTrimmed = refl

line_IsTrimmed : IsTrimmed (codes "port=a=b")
unfolding trim trim_start trim_end
line_IsTrimmed = refl

get-load_line_example :
    get (codes "server") (codes "port") [] (load_line (codes "port=a=b") (codes "server", [])).1
    ≡ codes "a=b"
get-load_line_example =
    get-load_line (codes "server") (codes "port") (codes "a=b") [] [] port_IsKey value_IsTrimmed
      line_IsTrimmed
