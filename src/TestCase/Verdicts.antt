-- ===== src/TestCase/Verdicts.antt =====
-- The verdicts in the log after the run of a test case: src/test-case/run-init.c.
use giitestutils.Base.{
  ℕ, ◌≡◌, refl, subst, sym, false, List, [], ◌++◌, Option, none, some, append-nil, length,
}
use giitestutils.Base.Exec.Ensures.{
  Ensures, Ensures-pure, Ensures-aborted, Ensures-bind, Ensures-modify, Ensures-Keeps,
  Ensures-weaken, Ensures-on_option,
}
use giitestutils.Process.{Env, World, GtuTestResult, invalid}
use giitestutils.Process.Verdicts.{Shows-MessageInvariant, Shows-WorldInvariant}
use giitestutils.TestCase.Stream.{Keeps-path_string, Keeps-announce, Keeps-pop_log_hook}
use giitestutils.TestCase.Exec.Stream.{Keeps-exec_inner}
use giitestutils.TestCase.Complex.{Subunit}
use giitestutils.TestCase.Complex.Overall.{StaysFailed, overall}
use giitestutils.TestCase.Complex.Verdicts.{Sees, complex_case_run-overall}
use giitestutils.TestCase.{
  GtuTestCase, run_func, first_run, gtu_test_case_has_run, gtu_test_case_run,
}

-- The verdicts `new` that the subunits of a case leave, and its result `r`.
abbrev pub Subresults : Option (List Subunit) → List GtuTestResult → GtuTestResult → Type 0
Subresults none new r = new ≡ []
Subresults (some us) new r = (length new ≡ length us) × StaysFailed invalid new × (r ≡ overall new)

-- A case that has returned with the result `r`, from a state that shows `vs`.
pub record CaseRan (vs : List GtuTestResult) (e : ℕ) (self : GtuTestCase) (r : GtuTestResult)
    (w : World) : Type 0 where
  pub new : List GtuTestResult
  pub seen : Sees (vs ++ new) e w
  pub subresults : Subresults self.subunits new r

module _ (env : Env) (e : ℕ) where
  run_func-Ensures :
      (self : GtuTestCase) (vs : List GtuTestResult) (w : World)
      → Sees vs e w
      → Ensures Unit (run_func env self) w (λ ran w'. CaseRan vs e self ran.0 w')
  unfolding run_func
  run_func-Ensures self vs w s =
      Ensures-on_option self.subunits _ _ w
        (λ simple.
          Ensures-on_option self.func _ _ w (λ no_func. Ensures-aborted w tt)
            (λ func has_func.
              Ensures-weaken _ w
                (Ensures-Keeps _ w (Keeps-exec_inner (Shows-MessageInvariant vs e) env func) s)
                (λ ran w' s'. record {
                  new = [];
                  seen = rw (append-nil vs) s';
                  subresults = subst (λ o. Subresults o [] ran.0) (sym simple) refl;
                })))
        (λ us complex.
          Ensures-weaken _ w (complex_case_run-overall env e self.path us vs w s) (λ ran w' c.
            record {
              new = c.new;
              seen = c.seen;
              subresults =
                  subst (λ o. Subresults o c.new ran.0) (sym complex)
                    (c.one_each, c.stays, c.agrees);
            }))

  first_run-Ensures :
      (self : GtuTestCase) (vs : List GtuTestResult) (w : World)
      → Sees vs e w
      → Ensures Unit (first_run env self) w (λ ran w'. CaseRan vs e self ran.0.0 w')
  unfolding first_run
  first_run-Ensures self vs w s =
      Ensures-bind _ _ w
        (Ensures-Keeps _ w (Keeps-path_string (Shows-WorldInvariant vs e) env self.path) s)
        λ path w1 s1.
          Ensures-bind {R = λ u w'. Sees vs e w'} _ _ w1 (Ensures-modify _ w1 s1) λ u w2 s2.
            Ensures-bind {R = λ u w'. Sees vs e w'} _ _ w2 (Ensures-modify _ w2 s2) λ u w3 s3.
              Ensures-bind _ _ w3
                (Ensures-Keeps _ w3 (Keeps-announce (Shows-WorldInvariant vs e) env _ _) s3)
                λ u w4 s4. Ensures-bind _ _ w4 (run_func-Ensures self vs w4 s4) λ ran w5 c.
                  let q = Shows-MessageInvariant (vs ++ c.new) e in
                  Ensures-bind _ _ w5
                    (Ensures-Keeps _ w5
                      (Keeps-announce (Shows-WorldInvariant (vs ++ c.new) e) env _ _) c.seen)
                    λ u w6 s6.
                      Ensures-bind _ _ w6 (Ensures-Keeps _ w6 (Keeps-pop_log_hook q env) s6)
                        λ u w7 s7.
                          Ensures-bind {R = λ u w'. Sees (vs ++ c.new) e w'} _ _ w7
                            (Ensures-modify _ w7 s7)
                            λ u w8 s8.
                              Ensures-pure _ w8
                                (record { new = c.new; seen = s8; subresults = c.subresults })

  -- The run of a case that has not run.
  pub case_run-Ensures :
      (self : GtuTestCase) (vs : List GtuTestResult) (w : World)
      → gtu_test_case_has_run self ≡ false
      → Sees vs e w
      → Ensures Unit (gtu_test_case_run env self) w (λ ran w'. CaseRan vs e self ran.0.0 w')
  unfolding gtu_test_case_run
  case_run-Ensures self vs w h s = rw h (first_run-Ensures self vs w s)
