-- ===== src/TestCase/Exec.antt =====
-- src/test-case/run-setjmp.c: one run of a test function, which a failed assertion, a skip or an
-- unexpected message ends by a jump.
pub mod Macros
pub mod Percent
pub mod Stream
pub mod Verdict
use giitestutils.Base.{
  ℕ, Bool, true, false, not, List, [], ◌∷◌, ◌++◌, Option, none, some, if◌then◌else◌, Bytes, codes,
}
use giitestutils.Base.Exec.{
  Exec, Outcome, returned, aborted, undefined, pure, stop, gets, modify, ◌>>=◌, ◌>>◌, on_checked,
  on_option,
}
use giitestutils.Log.Level.{GLogLevelFlags}
use giitestutils.Log.Message.{GtuLogGMessage}
use giitestutils.Log.Tap.{gtu_log_diagnostic, gtu_log_bail_out}
use giitestutils.Process.{
  Env, World, GtuTestResult, pass, skip, fail, on_log, gtu_log_domain, Signal, goes_on, preempted,
  get_tr_context, set_tr_context, g_log, failed_check,
}
use giitestutils.Process.Expect.{
  GtuExpectedMessage, gtu_test_case_expect_message, gtu_test_case_expect_check,
  gtu_test_case_expect_count,
}

-- The place of an assertion or a skip.
pub record Location : Type 0 where
  pub file : Bytes
  pub line : Bytes
  pub function : Bytes

-- What a test function does, as far as the library sees it: its calls, and how it goes on after
-- each. It uses the expectations of its own test case.
pub data Body : Type 0 where
  ends : Body
  logs : GtuLogGMessage → Body → Body
  asserts_fail : Location → Option Bytes → Body
  skips : Option Location → Option Bytes → Body
  expects : Option Bytes → GLogLevelFlags → (Bytes → Bool) → (ℕ → Body) → Body
  checks : ℕ → (Bool → Body) → Body
  counts : ℕ → (ℕ → Body) → Body

-- "%s:%s:%s"
abbrev pub location_text : Location → Bytes
location_text l = l.file ++ (b':' ∷ l.line) ++ (b':' ∷ l.function)

-- The text of a failed assertion.
abbrev pub assertion_text : Location → Option Bytes → Bytes
assertion_text l none = location_text l ++ codes ": assert failed"
assertion_text l (some message) = location_text l ++ codes ": " ++ message

-- What follows a message, unless the abort handler has jumped out of the test.
abbrev pub after_signal : Signal → Exec World (Unit {0}) → Exec World (Unit {0})
after_signal goes_on next = next
after_signal preempted next = pure tt

-- A call on the expectations of the running case; a NULL array is a fault.
abbrev pub on_expected : (List GtuExpectedMessage → Exec World (Unit {0})) → Exec World (Unit {0})
on_expected f = gets (λ w. w.expected_msgs) >>= λ msgs. on_option msgs (stop undefined) f

abbrev pub set_expected : List GtuExpectedMessage → Exec World (Unit {0})
set_expected msgs = modify (λ w. record w { expected_msgs = some msgs })

module _ (env : Env) where
  unfoldable pub gtu_assertion_message : Location → Option Bytes → Exec World (Unit {0})
  unfolding on_log
  gtu_assertion_message l message = get_tr_context env >>= λ _.
      if env.fatal_asserts
      then on_log
          (gtu_log_diagnostic (codes "**\nERROR:" ++ assertion_text l message ++ b'\n' ∷ []))
        >> stop aborted
      else if not env.keep_going
      then on_log (gtu_log_bail_out false (some (assertion_text l message)))
      else set_tr_context (some (assertion_text l message)) fail

  unfoldable pub gtu_skip_if_reached_message :
      Option Location → Option Bytes → Exec World (Unit {0})
  gtu_skip_if_reached_message place (some message) =
      get_tr_context env >> set_tr_context (some message) skip
  gtu_skip_if_reached_message (some l) none =
      get_tr_context env >> set_tr_context (some (codes "Check failed at " ++ location_text l)) skip
  gtu_skip_if_reached_message none none = get_tr_context env >> stop aborted

  -- func (func_target), up to its return or to the jump back.
  unfoldable pub run_body : Body → Exec World (Unit {0})
  unfolding g_log failed_check gtu_assertion_message gtu_skip_if_reached_message
  run_body ends = pure tt
  run_body (logs message next) = g_log env message >>= λ signal. after_signal signal (run_body next)
  run_body (asserts_fail l message) = gtu_assertion_message l message
  run_body (skips place message) = gtu_skip_if_reached_message place message
  run_body (expects domain level regex next) = on_expected λ msgs.
      on_checked (gtu_test_case_expect_message gtu_log_domain domain level regex msgs)
        (λ r. set_expected r.1 >> run_body (next r.0))
        (λ r. failed_check env (codes "gtu_test_case_expect_message") >>= λ signal.
          after_signal signal (run_body (next r.0)))
  run_body (checks handle next) = on_expected λ msgs.
      on_checked (gtu_test_case_expect_check handle msgs) (λ b. run_body (next b))
        (λ b. failed_check env (codes "gtu_test_case_expect_check") >>= λ signal.
          after_signal signal (run_body (next b)))
  run_body (counts handle next) = on_expected λ msgs.
      on_checked (gtu_test_case_expect_count handle msgs)
        (λ r. set_expected r.1 >> run_body (next r.0))
        (λ r. failed_check env (codes "gtu_test_case_expect_count") >>= λ signal.
          after_signal signal (run_body (next r.0)))

  -- The result and the message of the run.
  unfoldable pub gtu_test_case_exec_inner : Body → Exec World (GtuTestResult × Option Bytes)
  unfolding run_body
  gtu_test_case_exec_inner func = do
    current ← gets (λ w. w.tr_context)
    on_option current
        (do
          set_tr_context none pass
          run_body func
          context ← gets (λ w. w.tr_context)
          modify (λ w. record w { tr_context = none })
          on_option context (stop undefined) (λ c. pure (c.result, c.message)))
        (λ c. stop aborted)
