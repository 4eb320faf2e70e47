-- ===== src/Process.antt =====
-- The state of a test process, and how it handles GLib's messages: message_handler of
-- src/log/glib-handlers.c, invoke_hooks of src/log/hooks.c, verbosity_handler of src/init.c,
-- log_hook of src/test-case/run-init.c and the expectations of src/test-case/expect.c.
pub mod Expect
pub mod Policy
pub mod Stream
pub mod Structured
pub mod Verdicts
use giitestutils.Base.{
  ℕ, suc, ◌+◌, Bool, true, false, not, ◌&&◌, ◌||◌, List, [], ◌∷◌, ◌++◌, Option, none, some,
  is_empty, if◌then◌else◌, Bytes, codes,
}
use giitestutils.Base.Exec.{
  Exec, Outcome, returned, exited, aborted, undefined, pure, stop, gets, modify, ◌>>=◌, ◌>>◌,
}
use giitestutils.TestPath.{GtuTestMode}
use giitestutils.Log.Level.{GLogLevelFlags, Level, level_flags}
use giitestutils.Log.Level.Flags.{GTest, gtu_should_log}
use giitestutils.Log.Message.{GtuLogGMessage, format_message}
use giitestutils.Log.Tap.{Log, gtu_log_diagnostic, gtu_log_bail_out}
use giitestutils.Log.Hooks.{GtuLogAction, continue, ignore, suppress, abort, Hook, run_hooks}
use Expect.{GtuExpectedMessage, match_message}

-- What is fixed once gtu_init has run: its settings, and the answers of GLib and the terminal.
-- `glib_aborts`: g_logv aborts after the handler of this message. `check_message`: the text of the
-- critical message by which a g_return_if_fail of this function fails.
pub record Env : Type 0 where
  pub has_initialized : Bool
  pub g_test : GTest
  pub supports_color : Bool
  pub keep_going : Bool
  pub fatal_asserts : Bool
  pub test_mode : GtuTestMode
  pub isspace : ℕ → Bool
  pub glib_aborts : GtuLogGMessage → Bool
  pub check_message : Bytes → Bytes

pub data GtuTestResult : Type 0 where
  invalid pass skip fail : GtuTestResult

-- TestRunContext, without the magic number and the jump buffer.
pub record TestRunContext : Type 0 where
  pub message : Option Bytes
  pub result : GtuTestResult

-- The functions that the library installs as hooks, and their targets.
pub data HookFunc : Type 0 where
  verbosity_handler log_hook : HookFunc

pub data HookTarget : Type 0 where
  null running_case : HookTarget

abbrev pub same_func : HookFunc → HookFunc → Bool
same_func verbosity_handler verbosity_handler = true
same_func log_hook log_hook = true
same_func _ _ = false

-- `hooks` is newest first; `expected_msgs` is that of the test case being run, `none` being
-- NULL; `has_run` is the static variable of gtu_test_suite_run.
pub record World : Type 0 where
  pub log : Log
  pub hooks : List (Hook HookFunc HookTarget)
  pub tr_context : Option TestRunContext
  pub expected_msgs : Option (List GtuExpectedMessage)
  pub has_run : Bool

unfoldable pub on_log {ℓ} : {A : Type ℓ} → Exec Log A → Exec World A
on_log m w = let (r, log) = m w.log in (r, record w { log = log })

-- A step that a failed g_assert ends.
abbrev pub or_abort {ℓ} : {A : Type ℓ} → Option A → Exec World A
or_abort none w = (aborted, w)
or_abort (some a) w = (returned a, w)

abbrev pub gtu_log_domain : Bytes
gtu_log_domain = codes "GiiTestUtils"

-- The log domain of the files of src/log.
abbrev pub gtu_log_log_domain : Bytes
gtu_log_log_domain = codes "GiiTestUtils-Log"

-- What becomes of a message: g_log returns, or the abort handler jumps out of the test.
pub data Signal : Type 0 where
  goes_on preempted : Signal

-- _gtu_get_tr_context, with the checks of _gtu_tr_context_check.
abbrev pub get_tr_context : Env → Exec World TestRunContext
get_tr_context env w = elim w.tr_context [
  | none ↦ (aborted, w)
  | some c ↦
      if env.has_initialized
      then elim c.message [ none ↦ (returned c, w) | some m ↦ (aborted, w) ]
      else (aborted, w)
]

abbrev pub set_tr_context : Option Bytes → GtuTestResult → Exec World (Unit {0})
set_tr_context message result =
    modify (λ w. record w { tr_context = some (record { message = message; result = result }) })

module _ (env : Env) where
  verbosity_handler_call : GtuLogGMessage → Exec World (GtuLogAction × GtuLogGMessage)
  unfolding gtu_should_log
  verbosity_handler_call message =
      let raised = message.flags.warning || message.flags.critical in
      let flags = record message.flags { fatal = message.flags.fatal || raised } in
      or_abort (gtu_should_log env.has_initialized env.g_test flags) >>= λ should_log.
      pure (if should_log then continue else ignore, record message { flags = flags })

  -- A warning or critical message that no expectation matches fails the running test.
  unfoldable pub fail_unexpected : GtuLogGMessage → Exec World (GtuLogAction × GtuLogGMessage)
  unfolding format_message
  fail_unexpected message = do
    text ← or_abort (format_message env.supports_color message)
    get_tr_context env
    set_tr_context (some (codes "Unexpected message: " ++ text)) fail
    pure (abort, message)

  -- The end of log_hook, for a message that no expectation matches.
  unfoldable pub unexpected : GtuLogGMessage → Exec World (GtuLogAction × GtuLogGMessage)
  unfolding fail_unexpected
  unexpected message =
      if message.flags.fatal
      then pure (continue, message)
      else if message.flags.critical || message.flags.warning
      then fail_unexpected message
      else pure (continue, message)

  -- The loop of log_hook has found an expectation: the others are as they were.
  unfoldable pub expected :
      List GtuExpectedMessage → GtuLogGMessage → Exec World (GtuLogAction × GtuLogGMessage)
  unfolding gtu_should_log
  expected msgs message = do
    modify (λ w. record w { expected_msgs = some msgs })
    should_log ← or_abort (gtu_should_log env.has_initialized env.g_test (level_flags Level.info))
    pure (if should_log then suppress else ignore, message)

  -- What the loop of log_hook has found, or not.
  unfoldable pub on_match :
      Option (List GtuExpectedMessage) → GtuLogGMessage → Exec World (GtuLogAction × GtuLogGMessage)
  unfolding unexpected expected
  on_match none message = unexpected message
  on_match (some msgs) message = expected msgs message

  -- A message of no domain is not looked up; a NULL array is a fault.
  unfoldable pub look_up :
      Option Bytes
      → Option (List GtuExpectedMessage)
      → GtuLogGMessage
      → Exec World (GtuLogAction × GtuLogGMessage)
  unfolding on_match match_message
  look_up none msgs message = unexpected message
  look_up (some domain) none message = stop undefined
  look_up (some domain) (some msgs) message = on_match (match_message domain message msgs) message

  unfoldable pub log_hook_call : GtuLogGMessage → Exec World (GtuLogAction × GtuLogGMessage)
  unfolding look_up
  log_hook_call message w = look_up message.domain w.expected_msgs message w

  unfoldable pub call_hook :
      HookFunc → HookTarget → GtuLogGMessage → Exec World (GtuLogAction × GtuLogGMessage)
  unfolding verbosity_handler_call log_hook_call
  call_hook verbosity_handler target message = verbosity_handler_call message
  call_hook log_hook target message = log_hook_call message

  -- The suppression message of invoke_hooks.
  unfoldable pub suppress_message : GtuLogGMessage → Exec World (Unit {0})
  unfolding format_message on_log
  suppress_message message = do
    head ← or_abort (
        format_message env.supports_color (record {
          domain = some gtu_log_domain;
          flags = level_flags Level.info;
          body = codes "Suppressed message: ";
        }))
    text ← or_abort (format_message env.supports_color message)
    on_log (gtu_log_diagnostic (head ++ text ++ b'\n' ∷ []))

  -- The rest of message_handler, for a message that is not suppressed.
  unfoldable pub emit : GtuLogGMessage → Exec World (Unit {0})
  unfolding format_message on_log
  emit message = do
    text ← or_abort (format_message env.supports_color message)
    if message.flags.fatal
        then on_log (gtu_log_bail_out true (some text))
        else on_log (gtu_log_diagnostic text)

  -- What follows the loop of invoke_hooks, in it and in message_handler.
  unfoldable pub finish : GtuLogAction → GtuLogGMessage → Exec World Signal
  unfolding suppress_message emit
  finish continue message = emit message >> pure goes_on
  finish ignore message = pure goes_on
  finish suppress message = suppress_message message >> pure goes_on
  finish abort message = pure preempted

  -- message_handler with should_suppress and invoke_hooks.
  unfoldable pub message_handler : GtuLogGMessage → Exec World Signal
  unfolding call_hook finish run_hooks
  message_handler message w =
      (run_hooks call_hook w.hooks message >>= λ answer. finish answer.0 answer.1) w

  -- g_log, as far as the library sees it.
  unfoldable pub g_log : GtuLogGMessage → Exec World Signal
  unfolding message_handler
  g_log message = do
    signal ← message_handler message
    if env.glib_aborts message then stop aborted else pure signal

  -- A g_return_if_fail fails: a critical message from GTU's domain, which
  -- gtu_log_g_register_internal_domain has GLib mark as fatal.
  unfoldable pub failed_check : Bytes → Exec World Signal
  unfolding g_log
  failed_check function = g_log (record {
    domain = some gtu_log_domain;
    flags = record (level_flags Level.critical) { fatal = true };
    body = env.check_message function;
  })
