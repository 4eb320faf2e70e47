-- ===== src/TestCase/Restores.antt =====
-- The run of a test case leaves the process as it was, and the case as run and disposed of:
-- src/test-case/run-init.c and src/test-case/test-case.c.
use giitestutils.Base.{
  suc, ◌≡◌, ◌≢◌, refl, sym, ap, ◌∙◌, Bool, true, false, ◌∷◌, Option, none, arith, Bytes,
  if◌then◌else◌,
}
use giitestutils.Base.Exec.{Exec, pure, ◌>>◌}
use giitestutils.Base.Exec.Keeps.{Keeps, Keeps-modify}
use giitestutils.Base.Exec.Ensures.{
  Ensures, Ensures-pure, Ensures-aborted, Ensures-bind, Ensures-modify, Ensures-gets, Ensures-if,
  Ensures-Keeps, Ensures-weaken, Ensures-on_option,
}
use giitestutils.Log.Hooks.{gtu_log_hooks_pop}
use giitestutils.Process.{
  Env, World, GtuTestResult, invalid, pass, skip, fail, log_hook, running_case, same_func, on_log,
}
use giitestutils.Process.Stream.{WorldInvariant}
use giitestutils.TestCase.Exec.Verdict.{Same}
use giitestutils.TestCase.Stream.{Keeps-path_string, Keeps-announce}
use giitestutils.TestCase.Complex.{path_string}
use giitestutils.TestCase.Complex.Restores.{Same-WorldInvariant, exec-Same, complex_run-Same}
use giitestutils.TestCase.{
  GtuTestCase, gtu_test_case_dispose, gtu_test_case_has_run, run_func, pop_log_hook, first_run,
  gtu_test_case_run,
}

-- The hooks and the has_run flag are those of `before`.
record Kept (before w : World) : Type 0 where
  pub hooked : w.hooks ≡ before.hooks
  pub once : w.has_run ≡ before.has_run

module _ (before : World) where
  Kept-on_log {ℓ} : {A : Type ℓ} (m : Exec _ A) → Keeps (Kept before) (on_log m)
  unfolding on_log
  Kept-on_log m = record { at = λ w s. record { hooked = s.hooked; once = s.once } }

  Kept-WorldInvariant : WorldInvariant (Kept before)
  Kept-WorldInvariant = record {
    diagnostic = λ format. Kept-on_log _;
    bail_out = λ should_trap format. Kept-on_log _;
    failing = λ message. Keeps-modify _ (λ w s. record { hooked = s.hooked; once = s.once });
    skipping = λ message. Keeps-modify _ (λ w s. record { hooked = s.hooked; once = s.once });
    expecting = λ msgs w s. record { hooked = s.hooked; once = s.once };
  }

-- The state with the hook of the running case.
abbrev hooked_up : World → World
hooked_up w = record w { hooks = record { func = log_hook; target = running_case } ∷ w.hooks }

-- The case has returned with a result: the hooks are those of `before`, no case is running, and the
-- case holds its result and has been disposed of.
pub record CaseDone (before : World) (self : GtuTestCase)
    (ran : (GtuTestResult × Option Bytes) × GtuTestCase) (w : World) : Type 0 where
  pub hooked : w.hooks ≡ before.hooks
  pub once : w.has_run ≡ before.has_run
  pub expects : w.expected_msgs ≡ none
  pub valid : ran.0.0 ≢ invalid
  pub disposed : ran.1 ≡ gtu_test_case_dispose (record self { result = ran.0.0 })

module _ (env : Env) where
  run_func-Same :
      (before : World) (self : GtuTestCase) (w : World)
      → Same before w
      → Ensures Unit (run_func env self) w (λ ran w'. Same before w' × (ran.0 ≢ invalid))
  unfolding run_func
  run_func-Same before self w s =
      Ensures-on_option self.subunits _ _ w
        (λ simple.
          Ensures-on_option self.func _ _ w (λ no_func. Ensures-aborted w tt)
            (λ func has_func. exec-Same env before func w s))
        (λ us complex. complex_run-Same env before self.path us w s)

  pop-Ensures :
      (before w : World)
      → Same (hooked_up before) w
      → Ensures Unit (pop_log_hook env) w (λ u w'. Kept before w')
  unfolding pop_log_hook gtu_log_hooks_pop
  pop-Ensures before w s =
      Ensures-bind
        {R = λ hooks w'. (hooks ≡ (hooked_up before).hooks) × (w'.has_run ≡ before.has_run)} _ _ w
        (Ensures-gets _ w (s.hooked, s.once))
        λ hooks w1 s1.
          Ensures-on_option (gtu_log_hooks_pop same_func log_hook hooks) _ _ w1
            (λ lost. Ensures-aborted w1 tt)
            (λ rest found.
              Ensures-modify _ w1 (record { hooked = ground (arith, found, s1.0); once = s1.1 }))

  first_run-CaseDone :
      (self : GtuTestCase) (w : World)
      → self.expected_msgs ≢ none
      → Ensures Unit (first_run env self) w (CaseDone w self)
  unfolding first_run
  first_run-CaseDone self w e =
      let p = Same-WorldInvariant (hooked_up w) in
      Ensures-bind _ _ w
        (Ensures-Keeps _ w (Keeps-path_string (Kept-WorldInvariant w) env self.path)
          (record { hooked = refl; once = refl }))
        λ path w1 s1.
          Ensures-bind {R = λ u w'. Kept w w' × (w'.expected_msgs ≢ none)} _ _ w1
            (Ensures-modify _ w1 (record { hooked = s1.hooked; once = s1.once }, e))
            λ u w2 s2.
              Ensures-bind {R = λ u w'. Same (hooked_up w) w'} _ _ w2
                (Ensures-modify _ w2 (record {
                  hooked = ap (◌∷◌ (record { func = log_hook; target = running_case })) s2.0.hooked;
                  once = s2.0.once;
                  expects = s2.1;
                }))
                λ u w3 s3.
                  Ensures-bind _ _ w3 (Ensures-Keeps _ w3 (Keeps-announce p env _ _) s3) λ u w4 s4.
                    Ensures-bind _ _ w4 (run_func-Same (hooked_up w) self w4 s4) λ ran w5 s5.
                      Ensures-bind _ _ w5 (Ensures-Keeps _ w5 (Keeps-announce p env _ _) s5.0)
                        λ u w6 s6. Ensures-bind _ _ w6 (pop-Ensures w w6 s6) λ u w7 s7.
                          Ensures-bind {R = λ u w'. Kept w w' × (w'.expected_msgs ≡ none)} _ _ w7
                            (Ensures-modify _ w7
                              (record { hooked = s7.hooked; once = s7.once }, refl))
                            λ u w8 s8. Ensures-pure _ w8 (record {
                              hooked = s8.0.hooked;
                              once = s8.0.once;
                              expects = s8.1;
                              valid = s5.1;
                              disposed = refl;
                            })

-- A case with a result has run.
has_run-valid : (self : GtuTestCase) → self.result ≢ invalid → gtu_test_case_has_run self ≡ true
unfolding gtu_test_case_has_run
has_run-valid self h = by_result self.result h
  where
    by_result :
        (r : GtuTestResult)
        → r ≢ invalid
        → (elim r as (λ k. Bool) [ invalid ↦ false | pass ↦ true | skip ↦ true | fail ↦ true ])
          ≡ true
    by_result invalid k = absurd (k refl)
    by_result pass k = refl
    by_result skip k = refl
    by_result fail k = refl

has_disposed-dispose : (self : GtuTestCase) → (gtu_test_case_dispose self).has_disposed ≡ true
unfolding gtu_test_case_dispose
has_disposed-dispose self = ground arith

result-dispose : (self : GtuTestCase) → (gtu_test_case_dispose self).result ≡ self.result
unfolding gtu_test_case_dispose
result-dispose self = ground arith

freed-dispose :
    (self : GtuTestCase)
    → self.has_disposed ≡ false
    → (gtu_test_case_dispose self).freed
      ≡ (if self.func_target_destroy then suc self.freed else self.freed)
unfolding gtu_test_case_dispose
freed-dispose self h = ground arith

dispose-disposed :
    (self : GtuTestCase) → self.has_disposed ≡ true → gtu_test_case_dispose self ≡ self
unfolding gtu_test_case_dispose
dispose-disposed self h = ground arith

-- When the run of a case that has neither run nor been disposed of returns, whatever its function
-- does: the hooks and the has_run flag are as before and no case is running; the case has run, with
-- the result that is returned; its function's target has been freed, once, if it was given a
-- destructor, and disposing of it again changes nothing; and a second run of it returns the same
-- result, without a message, and runs nothing.
pub case_run-once :
    (env : Env) (self : GtuTestCase) (w : World)
    → gtu_test_case_has_run self ≡ false
    → self.has_disposed ≡ false
    → self.expected_msgs ≢ none
    → Ensures Unit (gtu_test_case_run env self) w (λ ran w'.
      CaseDone w self ran w'
      × (gtu_test_case_has_run ran.1 ≡ true)
      × (ran.1.result ≡ ran.0.0)
      × (ran.1.freed ≡ (if self.func_target_destroy then suc self.freed else self.freed))
      × (gtu_test_case_dispose ran.1 ≡ ran.1)
      × (gtu_test_case_run env ran.1
          ≡ (path_string env ran.1.path >> pure ((ran.0.0, none), ran.1))))
unfolding gtu_test_case_run
case_run-once env self w fresh alive e =
    Ensures-if (gtu_test_case_has_run self) _ _ w (λ again. absurd (ground (arith, fresh, again)))
      (λ first. Ensures-weaken _ w (first_run-CaseDone env self w e) (λ ran w' d.
        let result : ran.1.result ≡ ran.0.0 =
          ap (λ c. c.result) d.disposed ∙ result-dispose (record self { result = ran.0.0 }) in
        let has_run : gtu_test_case_has_run ran.1 ≡ true =
          has_run-valid ran.1 (λ i. d.valid (sym result ∙ i)) in
        (
          d,
          has_run,
          result,
          ap (λ c. c.freed) d.disposed ∙ freed-dispose (record self { result = ran.0.0 }) alive,
          dispose-disposed ran.1 (
              ap (λ c. c.has_disposed) d.disposed
              ∙ has_disposed-dispose (record self { result = ran.0.0 })),
          ap
                (λ b.
                  if b
                  then path_string env ran.1.path >> pure ((ran.1.result, none), ran.1)
                  else first_run env ran.1)
                has_run
              ∙ ap (λ r. path_string env ran.1.path >> pure ((r, none), ran.1)) result,
        )))
