-- ===== src/TestCase/Exec/Verdict.antt =====
-- What a run of a test function leaves: its result and message, and the state for the next run
-- (src/test-case/run-setjmp.c).
use giitestutils.Base.{
  ◌≡◌, ◌≢◌, refl, sym, ◌∙◌, subst, Bool, List, Option, none, some, arith, Bytes,
}
use giitestutils.Base.Exec.{Exec}
use giitestutils.Base.Exec.Keeps.{Keeps, Keeps-modify}
use giitestutils.Base.Exec.Ensures.{
  Ensures, Ensures-pure, Ensures-aborted, Ensures-undefined, Ensures-bind, Ensures-modify,
  Ensures-gets, Ensures-on_option, Ensures-Keeps,
}
use giitestutils.Log.Hooks.{Hook}
use giitestutils.Process.{
  Env, World, TestRunContext, GtuTestResult, pass, skip, fail, HookFunc, HookTarget, on_log,
  set_tr_context,
}
use giitestutils.Process.Stream.{WorldInvariant}
use giitestutils.TestCase.Exec.{Body, gtu_test_case_exec_inner}
use giitestutils.TestCase.Exec.Stream.{Keeps-run_body}

-- A result and its message: a pass has none, a skip or a failure has one.
abbrev pub IsVerdict : GtuTestResult → Option Bytes → Type 0
IsVerdict pass none = Unit
IsVerdict skip (some message) = Unit
IsVerdict fail (some message) = Unit
IsVerdict _ _ = ⊥

-- A test function is running in a state with these hooks.
record Running (hooks : List (Hook HookFunc HookTarget)) (has_run : Bool) (w : World) : Type 0 where
  pub hooked : w.hooks ≡ hooks
  pub once : w.has_run ≡ has_run
  pub expects : w.expected_msgs ≢ none
  pub context : TestRunContext
  pub in_context : w.tr_context ≡ some context
  pub verdict : IsVerdict context.result context.message

module _ (hooks : List (Hook HookFunc HookTarget)) (has_run : Bool) where
  Running-on_log {ℓ} : {A : Type ℓ} (m : Exec _ A) → Keeps (Running hooks has_run) (on_log m)
  unfolding on_log
  Running-on_log m = record {
    at = λ w r. record {
      hooked = r.hooked;
      once = r.once;
      expects = r.expects;
      context = r.context;
      in_context = r.in_context;
      verdict = r.verdict;
    };
  }

  Running-context :
      (message : Bytes) (r : GtuTestResult)
      → IsVerdict r (some message)
      → Keeps (Running hooks has_run) (set_tr_context (some message) r)
  Running-context message r v = Keeps-modify _ λ w s. record {
    hooked = s.hooked;
    once = s.once;
    expects = s.expects;
    context = record { message = some message; result = r };
    in_context = refl;
    verdict = v;
  }

  Running-WorldInvariant : WorldInvariant (Running hooks has_run)
  Running-WorldInvariant = record {
    diagnostic = λ format. Running-on_log _;
    bail_out = λ should_trap format. Running-on_log _;
    failing = λ message. Running-context message fail tt;
    skipping = λ message. Running-context message skip tt;
    expecting = λ msgs w s. record {
      hooked = s.hooked;
      once = s.once;
      expects = λ e. ground (arith, e);
      context = s.context;
      in_context = s.in_context;
      verdict = s.verdict;
    };
  }

-- The state is that of `before`, as far as a test function leaves it.
pub record Same (before w : World) : Type 0 where
  pub hooked : w.hooks ≡ before.hooks
  pub once : w.has_run ≡ before.has_run
  pub expects : w.expected_msgs ≢ none

some-inj {ℓ} : {A : Type ℓ} {a b : A} → some a ≡ some b → a ≡ b
some-inj {a} {b} e = ground arith

-- A run of a test function has returned to the state that it began in, but for the log and the
-- expectations, with a verdict.
pub record Returned (before : World) (result : GtuTestResult) (message : Option Bytes) (w : World)
    : Type 0 where
  pub verdict : IsVerdict result message
  pub hooked : w.hooks ≡ before.hooks
  pub once : w.has_run ≡ before.has_run
  pub expects : w.expected_msgs ≢ none
  pub left : w.tr_context ≡ none

-- Whatever a test function does, when its run returns, the result is PASS without a message, or SKIP
-- or FAIL with one; no test is being run any more; and the hooks, the has_run flag and the presence
-- of the expectations are as before. Condition: the case has expectations, so has not been disposed of.
pub exec_inner-Returned :
    (env : Env) (func : Body) (w : World)
    → w.expected_msgs ≢ none
    → Ensures Unit (gtu_test_case_exec_inner env func) w (λ ran w'. Returned w ran.0 ran.1 w')
unfolding gtu_test_case_exec_inner
exec_inner-Returned env func w e =
    Ensures-bind {R = λ current w'. Same w w'} _ _ w
      (Ensures-gets _ w (record { hooked = refl; once = refl; expects = e }))
      λ current w1 s1.
        Ensures-on_option current _ _ w1
          (λ idle.
            Ensures-bind {R = λ u w'. Running w.hooks w.has_run w'} _ _ w1
              (Ensures-modify _ w1 (begun s1))
              λ u w2 s2.
                Ensures-bind _ _ w2
                  (Ensures-Keeps _ w2
                    (Keeps-run_body (Running-WorldInvariant w.hooks w.has_run) env func) s2)
                  λ u w3 s3.
                    Ensures-bind
                      {R = λ context w'. Running w.hooks w.has_run w' × (context ≡ w'.tr_context)} _
                      _ w3 (Ensures-gets _ w3 (s3, refl))
                      λ context w4 s4.
                        Ensures-bind
                          {R = λ u w'.
                            (c : TestRunContext) × (context ≡ some c)
                            × Returned w c.result c.message w'}
                          _ _ w4
                          (Ensures-modify _ w4 (s4.0.context, s4.1 ∙ s4.0.in_context, ended s4.0))
                          λ u w5 s5.
                            Ensures-on_option context _ _ w5 (λ lost. Ensures-undefined w5 tt)
                              (λ c here. Ensures-pure _ w5 (
                                subst (λ k. Returned w k.result k.message w5)
                                  (some-inj (sym s5.1 ∙ here)) s5.2)))
          (λ c nested. Ensures-aborted w1 tt)
  where
    begun :
        {w1 : World}
        → Same w w1
        → Running w.hooks w.has_run
            (record w1 { tr_context = some (record { message = none; result = pass }) })
    begun s = record {
      hooked = s.hooked;
      once = s.once;
      expects = s.expects;
      context = record { message = none; result = pass };
      in_context = refl;
      verdict = tt;
    }

    ended :
        {w4 : World} (r : Running w.hooks w.has_run w4)
        → Returned w r.context.result r.context.message (record w4 { tr_context = none })
    ended r = record {
      verdict = r.verdict;
      hooked = r.hooked;
      once = r.once;
      expects = r.expects;
      left = refl;
    }
