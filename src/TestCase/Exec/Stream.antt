-- ===== src/TestCase/Exec/Stream.antt =====
-- What a test function keeps of the test log.
use giitestutils.Base.{false, Option, none, some, List, Bytes}
use giitestutils.Base.Exec.{Exec, ◌>>=◌}
use giitestutils.Base.Exec.Keeps.{
  Keeps, Keeps-on_checked, Keeps-on_option, Keeps-pure, Keeps-stop, Keeps-gets, Keeps-if,
  Keeps-modify, Keeps-bind,
}
use giitestutils.Log.Tap.{Log}
use giitestutils.Process.{Env, World, Signal, goes_on, preempted, failed_check}
use giitestutils.Process.Expect.{GtuExpectedMessage}
use giitestutils.Process.Stream.{
  MessageInvariant, WorldInvariant, OnLog, OnLog-WorldInvariant, Keeps-get_tr_context, Keeps-g_log,
  Keeps-failed_check,
}
use giitestutils.TestCase.Exec.{
  Location, Body, ends, logs, asserts_fail, skips, expects, checks, counts, after_signal,
  on_expected, gtu_assertion_message, gtu_skip_if_reached_message, run_body,
  gtu_test_case_exec_inner,
}

module _ {P : World → Type 0} (p : WorldInvariant P) (env : Env) where
  Keeps-assertion : (l : Location) (m : Option Bytes) → Keeps P (gtu_assertion_message env l m)
  unfolding gtu_assertion_message
  Keeps-assertion l m = Keeps-bind _ _ (Keeps-get_tr_context P env) (λ c.
      Keeps-if _ _ _ (Keeps-bind _ _ (p.diagnostic _) (λ u. Keeps-stop _))
        (Keeps-if _ _ _ (p.bail_out false _) (p.failing _)))

  Keeps-skip :
      (place : Option Location) (m : Option Bytes)
      → Keeps P (gtu_skip_if_reached_message env place m)
  unfolding gtu_skip_if_reached_message
  Keeps-skip place (some m) = Keeps-bind _ _ (Keeps-get_tr_context P env) (λ c. p.skipping _)
  Keeps-skip (some l) none = Keeps-bind _ _ (Keeps-get_tr_context P env) (λ c. p.skipping _)
  Keeps-skip none none = Keeps-bind _ _ (Keeps-get_tr_context P env) (λ c. Keeps-stop _)

  Keeps-after_signal :
      (s : Signal) (m : Exec World (Unit {0})) → Keeps P m → Keeps P (after_signal s m)
  Keeps-after_signal goes_on m k = k
  Keeps-after_signal preempted m k = Keeps-pure _

  Keeps-on_expected :
      (f : List GtuExpectedMessage → Exec World (Unit {0}))
      → ((msgs : List GtuExpectedMessage) → Keeps P (f msgs))
      → Keeps P (on_expected f)
  Keeps-on_expected f k =
      Keeps-bind _ _ (Keeps-gets _) (λ msgs. Keeps-on_option msgs _ _ (Keeps-stop _) k)

  -- What follows a failed check.
  Keeps-after_check :
      (function : Bytes) (m : Exec World (Unit {0}))
      → Keeps P m
      → Keeps P (failed_check env function >>= λ signal. after_signal signal m)
  Keeps-after_check function m k =
      Keeps-bind _ _ (Keeps-failed_check p env function) (λ s. Keeps-after_signal s m k)

  pub Keeps-run_body : (body : Body) → Keeps P (run_body env body)
  unfolding run_body
  Keeps-run_body ends = Keeps-pure _
  Keeps-run_body (logs m next) =
      Keeps-bind _ _ (Keeps-g_log p env m) (λ s. Keeps-after_signal s _ (Keeps-run_body next))
  Keeps-run_body (asserts_fail l m) = Keeps-assertion l m
  Keeps-run_body (skips place m) = Keeps-skip place m
  Keeps-run_body (expects d level regex next) = Keeps-on_expected _ λ msgs.
      Keeps-on_checked _ _ _
        (λ r. Keeps-bind _ _ (Keeps-modify _ (p.expecting r.1)) (λ u. Keeps-run_body (next r.0)))
        (λ r. Keeps-after_check _ _ (Keeps-run_body (next r.0)))
  Keeps-run_body (checks handle next) = Keeps-on_expected _ λ msgs.
      Keeps-on_checked _ _ _ (λ b. Keeps-run_body (next b))
        (λ b. Keeps-after_check _ _ (Keeps-run_body (next b)))
  Keeps-run_body (counts handle next) = Keeps-on_expected _ λ msgs.
      Keeps-on_checked _ _ _
        (λ r. Keeps-bind _ _ (Keeps-modify _ (p.expecting r.1)) (λ u. Keeps-run_body (next r.0)))
        (λ r. Keeps-after_check _ _ (Keeps-run_body (next r.0)))

module _ {Q : Log → Type 0} (q : MessageInvariant Q) (env : Env) where
  pub Keeps-exec_inner : (func : Body) → Keeps (OnLog Q) (gtu_test_case_exec_inner env func)
  unfolding gtu_test_case_exec_inner
  Keeps-exec_inner func = Keeps-bind _ _ (Keeps-gets _) λ current.
      Keeps-on_option current _ _
        (Keeps-bind _ _ (Keeps-modify _ (λ w h. h)) λ u.
          Keeps-bind _ _ (Keeps-run_body (OnLog-WorldInvariant q) env func) λ u'.
            Keeps-bind _ _ (Keeps-gets _) λ context.
              Keeps-bind _ _ (Keeps-modify _ (λ w h. h))
                λ u''. Keeps-on_option context _ _ (Keeps-stop _) (λ c. Keeps-pure _))
        (λ c. Keeps-stop _)
