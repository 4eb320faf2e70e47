-- ===== src/CommandLine.antt =====
-- src/init.c: the command line. `args` is an array of pointers, with `none` for NULL, from the index
-- `i` on: its head is args[i].

pub mod Forms
pub mod Added
pub mod Runs
pub mod Glib
use giitestutils.Base.{
  ℕ, zero, suc, ◌+◌, ◌-◌, Bool, true, false, not, ◌&&◌, ◌||◌, List, [], ◌∷◌, ◌++◌, Option, none,
  some, ltb, ◌==◌, if◌then◌else◌, length, is_empty, Bytes, codes, str_eq,
}
use giitestutils.Base.Exec.{
  Outcome, returned, exited, aborted, undefined, Exec, pure, stop, modify, on_option, ◌>>=◌, ◌>>◌,
}
use giitestutils.TestPath.{GtuPath, GtuTestMode, Parsed, gtu_path_new_parse}
use giitestutils.Log.Tap.{
  Log, bail_out, print, newline, gtu_log_disable_test_plan, gtu_log_diagnostic, is_some,
}

abbrev pub Args : Type 0
Args = List (Option Bytes)

-- strncmp (s, prefix, strlen (prefix)) == 0
unfoldable pub starts_with : Bytes → Bytes → Bool
starts_with [] s = true
starts_with (c ∷ cs) [] = false
starts_with (c ∷ cs) (d ∷ ds) = c == d && starts_with cs ds

-- g_str_has_suffix (s, "=")
unfoldable pub ends_in_equals : Bytes → Bool
ends_in_equals [] = false
ends_in_equals (c ∷ []) = c == b'='
ends_in_equals (c ∷ d ∷ cs) = ends_in_equals (d ∷ cs)

-- The text from the offset on, which is not behind its end.
unfoldable pub behind : ℕ → Bytes → Bytes
behind zero s = s
behind (suc n) [] = []
behind (suc n) (c ∷ cs) = behind n cs

abbrev pub next_arg : Args → Option Bytes
next_arg [] = none
next_arg (next ∷ rest) = next

unfoldable pub get_arg : Args → Bytes → Option Bytes
unfolding starts_with ends_in_equals behind
get_arg [] arg = none
get_arg (none ∷ rest) arg = none
get_arg (some s ∷ rest) arg =
    let ret = behind (length arg) s in
    if not (starts_with arg s)
    then none
    else if ends_in_equals arg
    then if ltb 0 (length ret) then some ret else none
    else if not (length s == length arg) || is_empty rest
    then none
    else next_arg rest

-- The macro GET_ARG.
unfoldable pub get_arg_form : Args → Bytes → Option Bytes
unfolding get_arg
get_arg_form args argstr = elim (get_arg args argstr) [
  | some a ↦ some a
  | none ↦ get_arg args (argstr ++ codes "=")
]

-- What parse_args writes: the static variables, the two results and the log.
pub record Settings : Type 0 where
  pub keep_going : Bool
  pub tap_set : Bool
  pub fatal_warnings : Bool
  pub test_mode : GtuTestMode
  pub log : Log

abbrev pub keep_going_on : Settings → Settings
keep_going_on s = record s { keep_going = true }

abbrev pub tap_on : Settings → Settings
tap_on s = record s { tap_set = true }

abbrev pub fatal_warnings_on : Settings → Settings
fatal_warnings_on s = record s { fatal_warnings = true }

abbrev pub list_only_on : Settings → Settings
list_only_on s = record s {
  test_mode = record s.test_mode { list_only = true };
  log = (gtu_log_disable_test_plan s.log).1;
}

abbrev pub add_selector : GtuPath → Settings → Settings
add_selector path s = record s {
  test_mode = record s.test_mode { path_selectors = path ∷ s.test_mode.path_selectors };
}

abbrev pub add_skipper : GtuPath → Settings → Settings
add_skipper path s = record s {
  test_mode = record s.test_mode { path_skippers = path ∷ s.test_mode.path_skippers };
}

-- gtu_log_bail_out (false, "unsupported command line argument: %s", arg)
unfoldable pub bail_unsupported : Bytes → Exec Settings (Unit {0})
bail_unsupported arg s = (
  exited 99,
  record s {
    log =
        print (bail_out (some (codes "unsupported command line argument: " ++ arg)))
          (gtu_log_disable_test_plan s.log).1;
  },
)

abbrev pub is_unsupported : Args → Bytes → Bool
is_unsupported args arg =
    is_some (get_arg_form args (codes "--GTestLogFD"))
    || is_some (get_arg_form args (codes "--GTestSkipCount"))
    || str_eq (codes "--GTestSubprocess") arg

-- What parse_args begins with.
abbrev pub cleared : Settings → Settings
cleared s = record s { tap_set = false; fatal_warnings = false; keep_going = false }

-- What follows the loop; its text is a format without conversions.
unfoldable pub warn_without_tap : Exec Settings (Unit {0})
unfolding gtu_log_diagnostic
warn_without_tap s =
    let (r, log) =
      gtu_log_diagnostic (codes "WARNING: non-TAP test logging is unsupported. Run with --tap\n")
        s.log in
    if not s.tap_set && not s.test_mode.list_only then (r, record s { log = log }) else pure tt s

module _ (isspace : ℕ → Bool) where
  -- The parse of the text that GET_ARG gives, and CHECK_PATH; NULL is read through.
  unfoldable pub with_path :
      Option Bytes → (GtuPath → Settings → Settings) → Exec Settings (Unit {0})
  unfolding gtu_path_new_parse
  with_path none add = stop undefined
  with_path (some text) add =
      on_option (gtu_path_new_parse isspace text).path (stop (exited 1)) (λ path. modify (add path))

  -- The body of the loop of parse_args from the test for -p on, for args[i] = arg.
  unfoldable pub parse_from_paths : Args → Bytes → Exec Settings (Unit {0})
  unfolding get_arg_form bail_unsupported with_path
  parse_from_paths args arg =
      if is_some (get_arg_form args (codes "-p"))
      then with_path (get_arg_form args (codes "-s")) add_selector
      else if is_some (get_arg_form args (codes "-s"))
      then with_path (get_arg_form args (codes "-s")) add_skipper
      else if str_eq arg (codes "-l")
      then modify list_only_on
      else if is_unsupported args arg
      then bail_unsupported arg
      else pure tt

  -- The body of the loop of parse_args.
  unfoldable pub parse_arg : Args → Bytes → Exec Settings (Unit {0})
  unfolding parse_from_paths
  parse_arg args arg =
      if str_eq arg (codes "--keep-going") || str_eq arg (codes "-k")
      then modify keep_going_on
      else if str_eq arg (codes "--tap")
      then modify tap_on
      else if str_eq arg (codes "--g-fatal-warnings")
      then modify fatal_warnings_on
      else parse_from_paths args arg

  -- The loop of parse_args.
  unfoldable pub parse_each : Args → Exec Settings (Unit {0})
  unfolding parse_arg
  parse_each [] = pure tt
  parse_each (none ∷ rest) = stop aborted
  parse_each (some arg ∷ rest) = parse_arg (some arg ∷ rest) arg >> parse_each rest

  unfoldable pub parse_args : Args → Exec Settings (Unit {0})
  unfolding parse_each warn_without_tap
  parse_args args = modify cleared >> parse_each args >> warn_without_tap

-- temp_args[i] = arg; `none`: the entry is outside the array.
unfoldable pub write : Args → ℕ → Bytes → Option Args
write [] i arg = none
write (a ∷ rest) zero arg = some (some arg ∷ rest)
write (a ∷ rest) (suc i) arg = elim (write rest i arg) [ none ↦ none | some bs ↦ some (a ∷ bs) ]

-- The loop of gtu_init over its arguments, from the index `i` on: those of `-p` are hidden from GLib.
unfoldable pub hide_paths : Args → ℕ → Args → Option Args
unfolding get_arg_form write
hide_paths [] i temp_args = some temp_args
hide_paths (arg ∷ rest) i temp_args =
    if is_some (get_arg_form (arg ∷ rest) (codes "-p"))
    then elim (write temp_args i []) [
      | none ↦ none
      | some first ↦ elim (write first (i + 1) []) [
        | none ↦ none
        | some both ↦ hide_paths rest (i + 1) both
      ]
    ]
    else hide_paths rest (i + 1) temp_args

-- The arguments that gtu_init gives to g_test_init. The entry for --tap holds nothing yet while the
-- loop runs.
unfoldable pub glib_args : Args → Bool → Option Args
unfolding hide_paths
glib_args args true = hide_paths args 0 args
glib_args args false = elim (hide_paths args 0 (args ++ none ∷ [])) [
  | none ↦ none
  | some temp_args ↦ write temp_args (length temp_args - 1) (codes "--tap")
]
