-- ===== src/Process/Policy.antt =====
-- What becomes of a GLib message, against docs/considerations/logging.md: message_handler of
-- src/log/glib-handlers.c with the hooks that src/init.c and src/test-case/run-init.c install.
pub mod LogHook
pub mod InTest
use giitestutils.Base.{
  ℕ, ◌≡◌, refl, sym, ap, ◌∙◌, Bool, true, false, not, ◌&&◌, ◌||◌, List, [], ◌∷◌, ◌++◌, Option, none,
  some, arith, Bytes, codes, if◌then◌else◌, Option-cases, Bool-cases, inl, inr,
}
use giitestutils.Base.Exec.Steps.{bind-returned}
use giitestutils.Base.Exec.{continue as go_on, Exec, Outcome, returned, aborted, pure, ◌>>=◌, ◌>>◌}
use giitestutils.Log.Level.{GLogLevelFlags, Level, level_flags, switch_level}
use giitestutils.Log.Level.Flags.{GTest, IsConsistent, is_shown, gtu_should_log, should_log_levels}
use giitestutils.Log.Message.{GtuLogGMessage, format_message}
use giitestutils.Log.Message.Text.{leveled, text_of, format_message-text}
use giitestutils.Log.Tap.{gtu_log_diagnostic, gtu_log_bail_out}
use giitestutils.Log.Hooks.{GtuLogAction, continue, ignore, suppress, abort, Hook, run_hooks}
use giitestutils.Process.{
  Env, World, TestRunContext, GtuTestResult, fail, HookFunc, verbosity_handler, log_hook,
  HookTarget, null, running_case, on_log, or_abort, Signal, goes_on, preempted, gtu_log_domain,
  verbosity_handler_call, unexpected, expected, on_match, look_up, log_hook_call, call_hook,
  suppress_message, emit, finish, message_handler, set_tr_context, get_tr_context,
}
use giitestutils.Process.Expect.{GtuExpectedMessage, match_message}

-- Warnings and criticals are fatal outside a test, and fail the test inside.
abbrev pub is_warning : Level → Bool
is_warning level = (level_flags level).warning || (level_flags level).critical

module _ (env : Env) (init : env.has_initialized ≡ true) (g : IsConsistent env.g_test) where
  -- The test of verbosity_handler.
  should_log-raised :
      (level : Level) (fatal : Bool)
      → gtu_should_log env.has_initialized env.g_test
          (record (level_flags level) { fatal = fatal || is_warning level })
        ≡ some ((fatal || is_warning level) || is_shown env.g_test level)
  should_log-raised level true = rw init (should_log_levels env.g_test level g).1
  should_log-raised Level.warning false = rw init (should_log_levels env.g_test Level.warning g).1
  should_log-raised Level.critical false = rw init (should_log_levels env.g_test Level.critical g).1
  should_log-raised Level.error false = rw init (should_log_levels env.g_test Level.error g).0
  should_log-raised Level.message false = rw init (should_log_levels env.g_test Level.message g).0
  should_log-raised Level.info false = rw init (should_log_levels env.g_test Level.info g).0
  should_log-raised Level.debug false = rw init (should_log_levels env.g_test Level.debug g).0

  verbosity-lem :
      (domain : Option Bytes) (level : Level) (fatal : Bool) (body : Bytes) (w : World)
      → verbosity_handler_call env (leveled domain level fatal body) w ≡ (
        returned (
          if (fatal || is_warning level) || is_shown env.g_test level then continue else ignore,
          leveled domain level (fatal || is_warning level) body,
        ),
        w,
      )
  unfolding verbosity_handler_call ◌>>=◌
  verbosity-lem domain level fatal body w = rw (should_log-raised level fatal) refl

-- The treatments of a message: dropped, printed as a comment, printed as a suppressed one, a
-- Bail out! line and a trap, or the failure of the running test.
pub data Treatment : Type 0 where
  drop print print_suppressed bail fail_test : Treatment

-- The treatment of a message, in a test or not, expected by the test or not, by the test mode.
abbrev pub treatment : Bool → Bool → GTest → Level → Bool → Treatment
treatment in_test is_expected g level fatal =
    if in_test && is_expected
    then if g.verbose then print_suppressed else drop
    else if in_test && is_warning level && not fatal
    then fail_test
    else if fatal || is_warning level
    then bail
    else if is_shown g level
    then print
    else drop

module _ (env : Env) (domain : Option Bytes) (level : Level) (fatal : Bool) (body : Bytes) where
  abbrev pub perform : Treatment → Exec World Signal
  perform drop = pure goes_on
  perform print =
      on_log (gtu_log_diagnostic (text_of env.supports_color domain level fatal body))
      >> pure goes_on
  perform print_suppressed =
      on_log (
        gtu_log_diagnostic (
          text_of env.supports_color (some gtu_log_domain) Level.info false
            (codes "Suppressed message: ")
          ++ text_of env.supports_color domain level fatal body
          ++ b'\n' ∷ []))
      >> pure goes_on
  perform bail =
      on_log (
        gtu_log_bail_out {A = Unit {0}} true
          (some (text_of env.supports_color domain level true body)))
      >> pure goes_on
  perform fail_test =
      set_tr_context
        (some (codes "Unexpected message: " ++ text_of env.supports_color domain level fatal body))
        fail
      >> pure preempted

module _ (env : Env) (init : env.has_initialized ≡ true) (g : IsConsistent env.g_test) where
  emit-text :
      (domain : Option Bytes) (level : Level) (fatal : Bool) (body : Bytes) (w : World)
      → emit env (leveled domain level fatal body) w
        ≡ (if fatal
              then on_log (
                  gtu_log_bail_out {A = Unit {0}} true
                    (some (text_of env.supports_color domain level fatal body)))
              else on_log (gtu_log_diagnostic (text_of env.supports_color domain level fatal body)))
            w
  unfolding emit
  emit-text domain level fatal body w =
      bind-returned _ _ w (text_of env.supports_color domain level fatal body) w
        (rw (format_message-text env.supports_color domain level fatal body) refl)

  -- What follows the verbosity handler, which has marked the message as fatal if `raised`.
  pub finish-raised :
      (domain : Option Bytes) (level : Level) (fatal : Bool) (body : Bytes) (w : World)
      (raised shown : Bool)
      → (raised ≡ false → fatal ≡ false)
      → finish env
          (if raised || shown then continue else ignore)
          (leveled domain level raised body)
          w
        ≡ perform env domain level fatal body
            (if raised then bail else if shown then print else drop)
            w
  unfolding finish ◌>>=◌
  finish-raised domain level fatal body w true shown h =
      rw (emit-text domain level true body w) refl
  finish-raised domain level fatal body w false true h =
      rw (emit-text domain level false body w, h refl) refl
  finish-raised domain level fatal body w false false h = refl

  pub run_hooks-verbosity :
      (domain : Option Bytes) (level : Level) (fatal : Bool) (body : Bytes) (t : HookTarget)
      (w : World)
      → run_hooks
          (call_hook env)
          (record { func = verbosity_handler; target = t } ∷ [])
          (leveled domain level fatal body)
          w
        ≡ (
          returned (
            if (fatal || is_warning level) || is_shown env.g_test level then continue else ignore,
            leveled domain level (fatal || is_warning level) body,
          ),
          w,
        )
  unfolding run_hooks call_hook pure
  run_hooks-verbosity domain level fatal body t w =
      bind-returned _ _ w _ w (verbosity-lem env init g domain level fatal body w)
      ∙ by_action ((fatal || is_warning level) || is_shown env.g_test level)
          (leveled domain level (fatal || is_warning level) body)
    where
      by_action :
          (b : Bool) (m : GtuLogGMessage)
          → (elim (if b then continue else ignore)
                as (λ k. Exec World (GtuLogAction × GtuLogGMessage)) [
                  | continue ↦ pure (continue, m)
                  | ignore ↦ pure (if b then continue else ignore, m)
                  | suppress ↦ pure (if b then continue else ignore, m)
                  | abort ↦ pure (if b then continue else ignore, m)
                ])
              w
            ≡ (returned (if b then continue else ignore, m), w)
      by_action true m = refl
      by_action false m = refl

  -- Outside a test, with the one hook that gtu_init installs: the text of a message of one level is
  -- given to gtu_log_bail_out with a trap if GLib has marked it as fatal or it is a warning or a
  -- critical; that of any other, an error without the mark included, is given to gtu_log_diagnostic
  -- if the test mode shows its level, and dropped otherwise. Both functions are given the text as
  -- their format, as in `perform`, so that to give them a text with a conversion (a per cent sign
  -- that is not followed by another) is undefined. Conditions: gtu_init has run, and GLib's answers
  -- are consistent.
  pub message_handler-outside :
      (domain : Option Bytes) (level : Level) (fatal : Bool) (body : Bytes) (t : HookTarget)
      (w : World)
      → w.hooks ≡ record { func = verbosity_handler; target = t } ∷ []
      → message_handler env (leveled domain level fatal body) w
        ≡ perform env domain level fatal body (treatment false false env.g_test level fatal) w
  unfolding message_handler run_hooks call_hook
  message_handler-outside domain level fatal body t w one =
      ap
        (λ hooks.
          (run_hooks (call_hook env) hooks (leveled domain level fatal body) >>= λ a.
          finish env a.0 a.1)
            w)
        one
      ∙ bind-returned _ _ w _ w (run_hooks-verbosity domain level fatal body t w)
      ∙ finish-raised domain level fatal body w (fatal || is_warning level)
          (is_shown env.g_test level) (λ h. ground arith)
