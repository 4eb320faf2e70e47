-- ===== src/Tests/OnLog.antt =====
-- The log of src/log and the flags of src/flags.c, on concrete inputs.
use giitestutils.Base.{ℕ, ◌≡◌, refl, true, false, List, [], ◌∷◌, none, some, codes}
use giitestutils.Log.Level.{Level, level_flags}
use giitestutils.Log.Level.Flags.{
  get_flags-Reports, gtu_test_mode_flags_get_flags, Reports, should_log_levels, gtu_should_log,
}
use giitestutils.Log.Message.{format_message}
use giitestutils.Log.Message.Text.{leveled, text_of, format_message-text}
use giitestutils.Log.Tap.{initial, marker, diag_text}
use giitestutils.Log.Tap.Comments.{Comments, diag_text-Comments}
use giitestutils.Log.Tap.Counts.{
  Call, test_plan, diagnose, success, failed, bail, after_all, after_all-IsTap, IsTap,
  IsTap-initial,
}
use giitestutils.Log.Hooks.{Hook, gtu_log_hooks_pop}
use giitestutils.Log.Hooks.Stack.{hooks_pop-newest, Popped}
use giitestutils.Process.{
  HookFunc, HookTarget, verbosity_handler, log_hook, null, running_case, same_func,
}
use giitestutils.Tests.Data.{quick_run, quick_run-IsConsistent}

abbrev calls : List Call
calls =
    test_plan 2
    ∷ success (some (codes "/a")) none
    ∷ diagnose (codes "half\nway")
    ∷ failed none (some (codes "lost"))
    ∷ bail false none
    ∷ []

after_all-IsTap_example : IsTap (after_all calls initial)
after_all-IsTap_example = after_all-IsTap calls initial IsTap-initial

diag_text-Comments_example : Comments (marker false) (diag_text false (codes "one\ntwo"))
diag_text-Comments_example = diag_text-Comments false (codes "one\ntwo")

prints_two_lines : diag_text false (codes "one\ntwo") ≡ codes "# one\n#   two\n"
unfolding diag_text
prints_two_lines = refl

get_flags-Reports_example :
    (flags : ℕ) × (gtu_test_mode_flags_get_flags true quick_run ≡ some flags)
    × Reports quick_run flags
get_flags-Reports_example = get_flags-Reports quick_run quick_run-IsConsistent

should_log_levels_example :
    (gtu_should_log true quick_run (level_flags Level.info) ≡ some false)
    × (gtu_should_log true quick_run (record (level_flags Level.info) { fatal = true }) ≡ some true)
should_log_levels_example = should_log_levels quick_run Level.info quick_run-IsConsistent

format_message-text_example :
    format_message true (leveled (some (codes "App")) Level.critical true (codes "lost"))
    ≡ some (text_of true (some (codes "App")) Level.critical true (codes "lost"))
format_message-text_example =
    format_message-text true (some (codes "App")) Level.critical true (codes "lost")

plain_text :
    format_message false (leveled (some (codes "App")) Level.critical true (codes "lost"))
    ≡ some (codes "FATAL-CRITICAL: (**App) lost")
unfolding format_message
plain_text = refl

abbrev two_hooks : List (Hook HookFunc HookTarget)
two_hooks =
    record { func = verbosity_handler; target = null }
    ∷ record { func = log_hook; target = running_case }
    ∷ []

hooks_pop-newest_example :
    Popped same_func log_hook two_hooks (gtu_log_hooks_pop same_func log_hook two_hooks)
hooks_pop-newest_example = hooks_pop-newest same_func log_hook two_hooks
