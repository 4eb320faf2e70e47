-- ===== src/Tests/OnPath.antt =====
-- The paths of src/path.c, on concrete texts.
use giitestutils.Base.{
  ◌≡◌, refl, ◌↔◌, true, false, List, [], ◌∷◌, some, Bytes, codes, value, length, arith,
}
use giitestutils.TestPath.{
  parse_error, slash, gtu_path_new_parse, gtu_path_to_string, gtu_path_is_valid,
  gtu_path_element_is_valid, gtu_path_should_run, gtu_path_has_prefix, GtuTestMode,
}
use giitestutils.TestPath.Parse.{parse-to_string, parsed}
use giitestutils.TestPath.Accepts.{parse_accepts}
use giitestutils.TestPath.Stops.{parse_stops, StopsAt}
use giitestutils.TestPath.Select.{HasPrefix, HasPrefix-iff, IsSelected, should_run_iff}
use giitestutils.TestPath.Elements.{
  IsWellFormed, Edit, append_element, append_path, edit_all, edit_all-IsWellFormed, edit,
}
use giitestutils.TestPath.Cache.{string_of-edit, string_of, printed}
use giitestutils.Tests.Data.{isspace, path_a, path_b}

path_b-IsWellFormed : IsWellFormed isspace path_b
unfolding gtu_path_element_is_valid
path_b-IsWellFormed = (refl, (refl, tt))

parse-to_string_example :
    (text : Bytes) × (value (gtu_path_to_string path_b)
      ≡ (some text, record path_b { cached_string = some text }))
    × (gtu_path_new_parse isspace text ≡ parsed path_b.elements (length text))
parse-to_string_example =
    parse-to_string isspace path_b (λ e. ground (arith, e)) refl path_b-IsWellFormed

reads_a_b : gtu_path_new_parse isspace (codes "/a/b") ≡ record { path = some path_b; endptr = 4 }
unfolding gtu_path_new_parse
reads_a_b = refl

parse_accepts_example :
    ((value (gtu_path_to_string path_b)).0 ≡ some (codes "/a/b"))
    × IsWellFormed isspace path_b
    × (4 ≡ length (codes "/a/b"))
parse_accepts_example = parse_accepts isspace (codes "/a/b") path_b 4 reads_a_b

refuses_a_space : gtu_path_new_parse isspace (slash ∷ codes "a b") ≡ parse_error 2
unfolding gtu_path_new_parse
refuses_a_space = refl

parse_stops_example : StopsAt isspace (slash ∷ codes "a b") 2
parse_stops_example = parse_stops isspace (codes "a b") 2 refuses_a_space

HasPrefix-iff_example : (gtu_path_has_prefix path_b path_a ≡ true) ↔ HasPrefix path_b path_a
HasPrefix-iff_example = HasPrefix-iff path_b path_a

abbrev only_a_not_b : GtuTestMode
only_a_not_b = record {
  path_selectors = path_a ∷ [];
  path_skippers = path_b ∷ [];
  list_only = false;
}

should_run_iff_example :
    (gtu_path_should_run only_a_not_b path_a ≡ true) ↔ IsSelected only_a_not_b path_a
should_run_iff_example = should_run_iff only_a_not_b path_a

runs_a : gtu_path_should_run only_a_not_b path_a ≡ true
unfolding gtu_path_should_run
runs_a = refl

skips_b : gtu_path_should_run only_a_not_b path_b ≡ false
unfolding gtu_path_should_run
skips_b = refl

abbrev edits : List Edit
edits =
    append_path path_b
    ∷ append_element (some (codes "c d"))
    ∷ append_element (some (codes "c"))
    ∷ []

edit_all-IsWellFormed_example : IsWellFormed isspace (edit_all isspace edits path_b)
edit_all-IsWellFormed_example =
    edit_all-IsWellFormed isspace edits path_b (path_b-IsWellFormed, (tt, (tt, tt)))
      path_b-IsWellFormed

path_b-is_valid : gtu_path_is_valid path_b ≡ true
unfolding gtu_path_is_valid
path_b-is_valid = refl

string_of-edit_example :
    string_of (edit isspace (append_element (some (codes "c"))) (printed path_b)) ≡ string_of path_b
string_of-edit_example =
    string_of-edit isspace (append_element (some (codes "c"))) path_b path_b-is_valid
      (λ e. ground (arith, e))
