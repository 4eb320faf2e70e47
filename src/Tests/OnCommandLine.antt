-- ===== src/Tests/OnCommandLine.antt =====
-- The command line of src/init.c, on concrete arguments.
use giitestutils.Base.{
  ◌≡◌, refl, Bool, true, false, [], ◌∷◌, ◌++◌, Option, none, some, ◌⊎◌, ◌↔◌, arith, Bytes, codes,
  str_eq, ap, if◌then◌else◌,
}
use giitestutils.Base.Exec.{undefined, on_option, ◌>>=◌}
use giitestutils.Base.Exec.Ensures.{Ensures}
use giitestutils.TestPath.{gtu_path_new_parse}
use giitestutils.Log.Tap.{initial, is_some}
use giitestutils.CommandLine.{
  Args, Settings, get_arg_form, parse_args, glib_args, cleared, ends_in_equals,
}
use giitestutils.CommandLine.Forms.{NextForm, EqualsForm, get_arg_form_iff}
use giitestutils.CommandLine.Added.{Added}
use giitestutils.CommandLine.Runs.{AllFine, parse_args-settings, parse_args-returns}
use giitestutils.CommandLine.Glib.{glib_args_complete}
use giitestutils.Tests.Data.{isspace}

abbrev pub skip_a : Args
skip_a = some (codes "-s") ∷ some (codes "/a") ∷ []

abbrev pub arguments : Args
arguments = some (codes "-k") ∷ skip_a

abbrev pub settings : Settings
settings = record {
  keep_going = false;
  tap_set = false;
  fatal_warnings = false;
  test_mode = record { path_selectors = []; path_skippers = []; list_only = false };
  log = initial;
}

no_equals : ends_in_equals (codes "-s") ≡ false
unfolding ends_in_equals
no_equals = refl

get_arg_form_iff_example :
    (get_arg_form skip_a (codes "-s") ≡ some (codes "/a"))
    ↔ (NextForm (codes "-s") skip_a (codes "/a") ⊎ EqualsForm (codes "-s") skip_a (codes "/a"))
get_arg_form_iff_example = get_arg_form_iff skip_a (codes "-s") (codes "/a") no_equals

parse_args-settings_example :
    Ensures Unit
      (parse_args isspace arguments)
      settings
      (λ u t. Added isspace arguments (cleared settings) t)
parse_args-settings_example = parse_args-settings isspace arguments settings

keeps_going : (parse_args isspace arguments settings).1.keep_going ≡ true
unfolding parse_args ◌>>=◌ str_eq on_option
keeps_going = refl

spells_path : Option Bytes → Bool
unfolding gtu_path_new_parse
spells_path none = true
spells_path (some text) = is_some (gtu_path_new_parse isspace text).path

pub arguments-AllFine : AllFine isspace arguments
unfolding get_arg_form gtu_path_new_parse str_eq spells_path
arguments-AllFine = (
  record { not_selector = refl; parses = λ text e. ground (arith, e); supported = refl },
  (
    record {
      not_selector = refl;
      parses = λ text e n. ground (arith, ap {B = Bool} spells_path e, n);
      supported = refl;
    },
    (record { not_selector = refl; parses = λ text e. ground (arith, e); supported = refl }, tt),
  ),
)

parse_args-returns_example :
    Ensures ⊥
      (parse_args isspace arguments)
      settings
      (λ u t. Added isspace arguments (cleared settings) t)
parse_args-returns_example = parse_args-returns isspace arguments settings arguments-AllFine

glib_args_complete_example : Ensures Unit (parse_args isspace arguments) settings (λ u t.
    glib_args arguments t.tap_set
    ≡ some (arguments ++ (if t.tap_set then [] else some (codes "--tap") ∷ [])))
glib_args_complete_example = glib_args_complete isspace arguments settings

abbrev selects_a : Args
selects_a = some (codes "-p") ∷ some (codes "/a") ∷ []

selecting-undefined : (parse_args isspace selects_a settings).0 ≡ undefined
unfolding parse_args ◌>>=◌ str_eq
selecting-undefined = refl
