-- ===== src/Log/Level/Flags.antt =====
-- src/flags.c. The g_test functions are GLib's.
use Prim.Native.Nat.{bit_and, bit_or}
use giitestutils.Base.{
  ℕ, ◌≡◌, refl, ◌≢◌, Bool, true, false, not, ◌&&◌, ◌||◌, Option, none, some, arith, ◌==◌,
  if◌then◌else◌, ◌⊎◌,
}
use giitestutils.Log.Level.{GLogLevelFlags, Level, switch_level, level_flags}

-- The answers of GLib's g_test_perf, g_test_slow and so on, which g_test_init fixes.
pub record GTest : Type 0 where
  pub perf : Bool
  pub slow : Bool
  pub quick : Bool
  pub undefined : Bool
  pub verbose : Bool
  pub quiet : Bool

-- GtuTestModeFlags
abbrev pub flag_perf : ℕ
flag_perf = 1

abbrev pub flag_slow : ℕ
flag_slow = 2

abbrev pub flag_quick : ℕ
flag_quick = 4

abbrev pub flag_undefined : ℕ
flag_undefined = 8

abbrev pub flag_verbose : ℕ
flag_verbose = 16

abbrev pub flag_quiet : ℕ
flag_quiet = 32

-- flags & flag
abbrev pub has : ℕ → ℕ → Bool
has flags flag = not (bit_and flags flag == 0)

-- if (b) flags |= flag
abbrev pub or_if : Bool → ℕ → ℕ → ℕ
or_if b flag flags = if b then bit_or flags flag else flags

abbrev pub collect_flags : GTest → ℕ
collect_flags g = or_if g.quiet flag_quiet (
    or_if g.verbose flag_verbose (
      or_if g.undefined flag_undefined
        (or_if g.quick flag_quick (or_if g.slow flag_slow (or_if g.perf flag_perf 0)))))

-- The sanity checks, in their order.
abbrev pub flags_sane : ℕ → Bool
flags_sane flags =
    not (flags == 0)
    && (has flags flag_slow || has flags flag_quick)
    && (not (has flags flag_slow) || not (has flags flag_quick))
    && (not (has flags flag_verbose) || not (has flags flag_quiet))

-- `none`: a g_assert failed. Before gtu_init a check fails and the answer is 0.
unfoldable pub gtu_test_mode_flags_get_flags : Bool → GTest → Option ℕ
gtu_test_mode_flags_get_flags has_initialized g =
    if not has_initialized
    then some 0
    else let flags = collect_flags g in if flags_sane flags then some flags else none

-- What GLib's documentation promises of the answers.
pub record IsConsistent (g : GTest) : Type 0 where
  pub slow_or_quick : g.quick ≡ not g.slow
  pub verbose_or_quiet : (g.verbose ≡ false) ⊎ (g.quiet ≡ false)

-- The flags hold what the user asked for, and nothing else, in the combinations that include/gtu.h
-- allows.
pub record Reports (g : GTest) (flags : ℕ) : Type 0 where
  pub perf : has flags flag_perf ≡ g.perf
  pub slow : has flags flag_slow ≡ g.slow
  pub quick : has flags flag_quick ≡ not g.slow
  pub undefined : has flags flag_undefined ≡ g.undefined
  pub verbose : has flags flag_verbose ≡ g.verbose
  pub quiet : has flags flag_quiet ≡ g.quiet
  pub nonzero : flags ≢ 0
  pub exclusive : (has flags flag_verbose ≡ false) ⊎ (has flags flag_quiet ≡ false)

-- With the answers that GLib promises, gtu_test_mode_flags_get_flags passes its own assertions, and
-- each flag is set exactly when GLib says so; the flags are never 0, exactly one of SLOW and QUICK
-- is set, and VERBOSE and QUIET not both.
pub get_flags-Reports :
    (g : GTest)
    → IsConsistent g
    → (flags : ℕ) × (gtu_test_mode_flags_get_flags true g ≡ some flags) × Reports g flags
unfolding gtu_test_mode_flags_get_flags
get_flags-Reports g c = (collect_flags g, ground arith, ground arith)

-- The level that _gtu_should_log allows, by the test mode flags; `none`: a g_assert failed.
unfoldable pub gtu_should_log : Bool → GTest → GLogLevelFlags → Option Bool
unfolding switch_level gtu_test_mode_flags_get_flags
gtu_should_log has_initialized g log_level =
    if log_level.fatal then some true else elim (switch_level log_level) [
      | none ↦ none
      | some Level.error ↦ some true
      | some Level.critical ↦ some true
      | some Level.warning ↦ some true
      | some Level.message ↦ elim (gtu_test_mode_flags_get_flags has_initialized g) [
        | none ↦ none
        | some flags ↦ some (not (has flags flag_quiet))
      ]
      | some Level.info ↦ elim (gtu_test_mode_flags_get_flags has_initialized g) [
        | none ↦ none
        | some flags ↦ some (has flags flag_verbose)
      ]
      | some Level.debug ↦ elim (gtu_test_mode_flags_get_flags has_initialized g) [
        | none ↦ none
        | some flags ↦ some (has flags flag_verbose)
      ]
    ]

-- Whether include/gtu.h and docs/running-tests let a message of this level appear.
abbrev pub is_shown : GTest → Level → Bool
is_shown g Level.message = not g.quiet
is_shown g Level.info = g.verbose
is_shown g Level.debug = g.verbose
is_shown g _ = true

-- A message of one level appears by its level: errors, criticals and warnings always, messages
-- unless the run is quiet, the rest when it is verbose; a fatal message always appears.
pub should_log_levels :
    (g : GTest) (l : Level)
    → IsConsistent g
    → (gtu_should_log true g (level_flags l) ≡ some (is_shown g l))
      × (gtu_should_log true g (record (level_flags l) { fatal = true }) ≡ some true)
unfolding gtu_should_log
should_log_levels g Level.error c = (refl, refl)
should_log_levels g Level.message c = ground arith
should_log_levels g Level.info c = ground arith
should_log_levels g Level.debug c = ground arith
should_log_levels g _ c = (refl, refl)
