-- ===== src/TestCase/Exec/Macros.antt =====
-- The macros of include/gtu-asserts.h and include/gtu-skips.h: `next` is what follows one in the test
-- function, and `text` is the condition as it is written.
use Prim.Native.Nat.{bit_and}
use giitestutils.Base.{
  ℕ, ◌≡◌, refl, sym, ◌∙◌, ap, Bool, true, false, not, Option, none, some, arith, ◌==◌, ◌++◌,
  if◌then◌else◌, Bytes, codes,
}
use giitestutils.Base.Exec.{returned, ◌>>=◌, on_option}
use giitestutils.Log.Level.Flags.{
  GTest, collect_flags, IsConsistent, gtu_test_mode_flags_get_flags, flag_perf, flag_slow,
  flag_undefined,
}
use giitestutils.Process.{Env, World, GtuTestResult, skip, fail}
use giitestutils.TestCase.Exec.{
  Location, Body, asserts_fail, skips, assertion_text, gtu_test_case_exec_inner,
}

unfoldable pub gtu_assert_with_message : Location → Bool → Option Bytes → Body → Body
gtu_assert_with_message place condition message next =
    if condition then next else asserts_fail place message

unfoldable gtu_assert_not_reached : Location → Body → Body
unfolding gtu_assert_with_message
gtu_assert_not_reached place next =
    gtu_assert_with_message place false (some (codes "code should not be reached")) next

unfoldable pub gtu_assert : Location → Bool → Bytes → Body → Body
unfolding gtu_assert_with_message
gtu_assert place condition text next =
    gtu_assert_with_message place condition (some (codes "assertion failed: " ++ text)) next

unfoldable pub gtu_assert_true : Location → Bool → Bytes → Body → Body
unfolding gtu_assert_with_message
gtu_assert_true place expression text next =
    gtu_assert_with_message place expression (some (codes "should be true: " ++ text)) next

unfoldable pub gtu_assert_false : Location → Bool → Bytes → Body → Body
unfolding gtu_assert_with_message
gtu_assert_false place expression text next =
    gtu_assert_with_message place (not expression) (some (codes "should be false: " ++ text)) next

unfoldable pub gtu_assert_null : Location → Bool → Bytes → Body → Body
unfolding gtu_assert_with_message
gtu_assert_null place is_null text next =
    gtu_assert_with_message place is_null (some (codes "should be NULL: " ++ text)) next

unfoldable pub gtu_assert_nonnull : Location → Bool → Bytes → Body → Body
unfolding gtu_assert_with_message
gtu_assert_nonnull place is_null text next =
    gtu_assert_with_message place (not is_null) (some (codes "shouldn't be NULL: " ++ text)) next

unfoldable pub gtu_skip_if_reached : Location → Option Bytes → Body
gtu_skip_if_reached place (some message) = skips none (some message)
gtu_skip_if_reached place none = skips (some place) none

-- The message, or the one that the macro makes up.
abbrev pub message_or : Bytes → Option Bytes → Option Bytes
message_or made_up none = some made_up
message_or made_up (some message) = some message

unfoldable pub gtu_skip_if_fail : Location → Bool → Bytes → Option Bytes → Body → Body
unfolding gtu_skip_if_reached
gtu_skip_if_fail place condition text message next =
    if condition
    then next
    else gtu_skip_if_reached place (message_or (codes "Pre-test check failed: " ++ text) message)

-- `now`: what gtu_test_mode_flags_get_flags has returned.
unfoldable pub gtu_skip_if_not_flags : Location → ℕ → ℕ → Bytes → Option Bytes → Body → Body
unfolding gtu_skip_if_reached
gtu_skip_if_not_flags place now flags text message next =
    if not (bit_and now flags == flags)
    then gtu_skip_if_reached place
        (message_or (codes "Missing prerequisite flags: " ++ text) message)
    else next

unfoldable pub gtu_skip_if_not_thorough : Location → ℕ → Body → Body
unfolding gtu_skip_if_not_flags
gtu_skip_if_not_thorough place now next =
    gtu_skip_if_not_flags place now flag_slow (codes "GTU_TEST_MODE_FLAGS_THOROUGH")
      (some (codes "Thorough tests disabled")) next

unfoldable pub gtu_skip_if_not_perf : Location → ℕ → Body → Body
unfolding gtu_skip_if_not_flags
gtu_skip_if_not_perf place now next =
    gtu_skip_if_not_flags place now flag_perf (codes "GTU_TEST_MODE_FLAGS_PERF")
      (some (codes "Performance tests disabled")) next

unfoldable pub gtu_skip_if_not_undefined : Location → ℕ → Body → Body
unfolding gtu_skip_if_not_flags
gtu_skip_if_not_undefined place now next =
    gtu_skip_if_not_flags place now flag_undefined (codes "GTU_TEST_MODE_FLAGS_UNDEFINED")
      (some (codes "Tests invoking undefined behaviour are disabled")) next

-- Each flag is that of GLib's answer.
same_flags :
    (g : GTest)
    → ((bit_and (collect_flags g) flag_slow == flag_slow) ≡ g.slow)
      × ((bit_and (collect_flags g) flag_perf == flag_perf) ≡ g.perf)
      × ((bit_and (collect_flags g) flag_undefined == flag_undefined) ≡ g.undefined)
same_flags g = ground arith

answer-collect_flags :
    (g : GTest) (now : ℕ)
    → IsConsistent g
    → gtu_test_mode_flags_get_flags true g ≡ some now
    → collect_flags g ≡ now
unfolding gtu_test_mode_flags_get_flags
answer-collect_flags g now c e = ground (arith, c.slow_or_quick, c.verbose_or_quiet, e)

-- No test function is being run.
abbrev pub idle : World → World
idle w = record w { tr_context = none }

-- The run of a test function in which a macro comes first: the run of the rest, or else the run ends
-- with this result and text.
abbrev pub RunsOr : Env → World → Body → Bool → Body → GtuTestResult → Bytes → Type 0
RunsOr env w body passes next result text = gtu_test_case_exec_inner env body (idle w) ≡ (
    if passes
    then gtu_test_case_exec_inner env next (idle w)
    else (returned (result, some text), idle w))

module _ (env : Env) (initialized : env.has_initialized ≡ true) (w : World) where
  skips-run :
      (message : Bytes)
      → gtu_test_case_exec_inner env (skips none (some message)) (idle w)
        ≡ (returned (skip, some message), idle w)
  unfolding gtu_test_case_exec_inner on_option ◌>>=◌
  skips-run message = rw initialized refl

  fails-run :
      (place : Location) (message : Bytes)
      → env.fatal_asserts ≡ false
      → env.keep_going ≡ true
      → gtu_test_case_exec_inner env (asserts_fail place (some message)) (idle w)
        ≡ (returned (fail, some (assertion_text place (some message))), idle w)
  unfolding gtu_test_case_exec_inner on_option ◌>>=◌
  fails-run place message lenient keeps = rw (initialized, lenient, keeps) refl

  guard :
      (body next : Body) (passes : Bool) (result : GtuTestResult) (text : Bytes)
      → (passes ≡ true → body ≡ next)
      → (passes ≡ false
          → gtu_test_case_exec_inner env body (idle w) ≡ (returned (result, some text), idle w))
      → RunsOr env w body passes next result text
  guard body next true result text same ended =
      ap (λ b. gtu_test_case_exec_inner env b (idle w)) (same refl)
  guard body next false result text same ended = ended refl

  assert-run :
      (place : Location) (condition : Bool) (message : Bytes) (next : Body)
      → env.fatal_asserts ≡ false
      → env.keep_going ≡ true
      → RunsOr env w
          (gtu_assert_with_message place condition (some message) next)
          condition
          next
          fail
          (assertion_text place (some message))
  unfolding gtu_assert_with_message
  assert-run place condition message next lenient keeps =
      guard _ next condition fail _ (λ holds. rw holds refl)
        (λ wrong. rw wrong (fails-run place message lenient keeps))

  flags-run :
      (place : Location) (now flags : ℕ) {passes : Bool} (text message : Bytes) (next : Body)
      → (bit_and now flags == flags) ≡ passes
      → RunsOr env w
          (gtu_skip_if_not_flags place now flags text (some message) next)
          passes
          next
          skip
          message
  unfolding gtu_skip_if_not_flags
  flags-run place now flags {passes} text message next e =
      guard _ next passes skip message (λ holds. rw (e, holds) refl)
        (λ wrong. rw (e, wrong) (skips-run message))

  -- In a run with --keep-going and without fatal assertions, and in an initialized process: a test
  -- function goes on behind gtu_assert exactly when the condition holds, and else the run of the
  -- case fails with the place and the text of the condition; behind gtu_skip_if_not_thorough,
  -- gtu_skip_if_not_perf and gtu_skip_if_not_undefined it goes on exactly when GLib's answer of
  -- g_test_slow, g_test_perf and g_test_undefined is true, and else the case is skipped with the
  -- text of the macro. Condition: the answers of GLib about the test mode are consistent.
  pub macros-RunsOr :
      (place : Location) (condition : Bool) (text : Bytes) (next : Body)
      → env.fatal_asserts ≡ false
      → env.keep_going ≡ true
      → IsConsistent env.g_test
      → (now : ℕ) → gtu_test_mode_flags_get_flags true env.g_test ≡ some now
      → RunsOr env w
          (gtu_assert place condition text next)
          condition
          next
          fail
          (assertion_text place (some (codes "assertion failed: " ++ text)))
        × RunsOr env w
            (gtu_skip_if_not_thorough place now next)
            env.g_test.slow
            next
            skip
            (codes "Thorough tests disabled")
        × RunsOr env w
            (gtu_skip_if_not_perf place now next)
            env.g_test.perf
            next
            skip
            (codes "Performance tests disabled")
        × RunsOr env w
            (gtu_skip_if_not_undefined place now next)
            env.g_test.undefined
            next
            skip
            (codes "Tests invoking undefined behaviour are disabled")
  unfolding gtu_assert gtu_skip_if_not_thorough gtu_skip_if_not_perf gtu_skip_if_not_undefined
  macros-RunsOr place condition text next lenient keeps consistent now e =
      let f = answer-collect_flags env.g_test now consistent e in
      let r = same_flags env.g_test in
      (
        assert-run place condition _ next lenient keeps,
        flags-run place now flag_slow (codes "GTU_TEST_MODE_FLAGS_THOROUGH") _ next
            (sym (ap (λ n. bit_and n flag_slow == flag_slow) f) ∙ r.0),
        flags-run place now flag_perf (codes "GTU_TEST_MODE_FLAGS_PERF") _ next
            (sym (ap (λ n. bit_and n flag_perf == flag_perf) f) ∙ r.1),
        flags-run place now flag_undefined (codes "GTU_TEST_MODE_FLAGS_UNDEFINED") _ next
            (sym (ap (λ n. bit_and n flag_undefined == flag_undefined) f) ∙ r.2),
      )
