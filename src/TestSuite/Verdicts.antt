-- ===== src/TestSuite/Verdicts.antt =====
-- The verdicts and the plan in the log after gtu_test_suite_run of src/test-suite.
use giitestutils.Base.{
  ℕ, ◌+◌, ◌≡◌, refl, subst, true, false, List, [], ◌∷◌, ◌++◌, Option, none, arith, append_assoc,
  append-nil, Bytes,
}
use giitestutils.Base.Exec.Ensures.{
  Ensures, Ensures-pure, Ensures-aborted, Ensures-bind, Ensures-modify, Ensures-if, Ensures-Keeps,
  Ensures-weaken,
}
use giitestutils.TestPath.{gtu_path_should_run}
use giitestutils.Log.Tap.{listed}
use giitestutils.Process.{Env, World, GtuTestResult, invalid, pass, skip, fail}
use giitestutils.Process.Verdicts.{Shows-print, Shows-result, Shows-WorldInvariant}
use giitestutils.TestCase.{GtuTestCase, gtu_test_case_has_run}
use giitestutils.TestCase.Stream.{Keeps-path_string}
use giitestutils.TestCase.Complex.Verdicts.{Sees}
use giitestutils.TestCase.Verdicts.{case_run-Ensures}
use giitestutils.TestSuite.{log_case, run_selected, run_test, run_tests}
use giitestutils.TestSuite.Plan.{
  failed_case, CaseLines, already_run, only_listed, deselected, ran, SuiteLines, no_case, next_case,
}

-- What a step over cases leaves: their verdicts, and the number of failed cases, up from `n`.
pub record Added (vs : List GtuTestResult) (e : ℕ) (lines : List GtuTestResult → ℕ → Type 0)
    (n m : ℕ) (w : World) : Type 0 where
  pub new : List GtuTestResult
  pub failed : ℕ
  pub seen : Sees (vs ++ new) e w
  pub as_promised : lines new failed
  pub counted : m ≡ n + failed

module _ (env : Env) (e : ℕ) where
  log_case-Ensures :
      (r : GtuTestResult) (path message : Option Bytes) (n : ℕ) (vs : List GtuTestResult)
      (w : World)
      → Sees vs e w
      → Ensures Unit
          (log_case env r path message n)
          w
          (λ m w'. Sees (vs ++ r ∷ []) e w' × (m ≡ n + failed_case r))
  unfolding log_case
  log_case-Ensures pass path message n vs w s =
      Ensures-bind {R = λ u w'. Sees (vs ++ pass ∷ []) e w'} _ _ w
        (Ensures-modify _ w (Shows-result true path none message vs e w.log s))
        (λ u w' s'. Ensures-pure _ w' (s', omega arith))
  log_case-Ensures skip path message n vs w s =
      Ensures-bind {R = λ u w'. Sees (vs ++ skip ∷ []) e w'} _ _ w
        (Ensures-modify _ w (Shows-result true path _ message vs e w.log s))
        (λ u w' s'. Ensures-pure _ w' (s', omega arith))
  log_case-Ensures fail path message n vs w s =
      Ensures-bind {R = λ u w'. Sees (vs ++ fail ∷ []) e w'} _ _ w
        (Ensures-modify _ w (Shows-result false path none message vs e w.log s))
        (λ u w' s'. Ensures-pure _ w' (s', refl))
  log_case-Ensures invalid path message n vs w s = Ensures-aborted w tt

  run_selected-Ensures :
      (self : GtuTestCase) (vs : List GtuTestResult) (w : World)
      → gtu_test_case_has_run self ≡ false
      → Sees vs e w
      → Ensures Unit (run_selected env self) w (λ res w'.
        (new : List GtuTestResult) × Sees (vs ++ new) e w'
        × CaseLines env self (new ++ res.0.0 ∷ []) (failed_case res.0.0))
  unfolding run_selected
  run_selected-Ensures self vs w h s =
      Ensures-if (gtu_path_should_run env.test_mode self.path) _ _ w
        (λ yes.
          Ensures-weaken _ w (case_run-Ensures env e self vs w h s)
            (λ res w' c. (c.new, c.seen, ran c.new res.0.0 yes c.subresults)))
        (λ no. Ensures-pure _ w ([], rw (append-nil vs) s, deselected no))

  run_test-Ensures :
      (self : GtuTestCase) (n : ℕ) (vs : List GtuTestResult) (w : World)
      → Sees vs e w
      → Ensures Unit (run_test env self n) w (λ res w'. Added vs e (CaseLines env self) n res.0 w')
  unfolding run_test
  run_test-Ensures self n vs w s =
      Ensures-if (gtu_test_case_has_run self) _ _ w
        (λ h. Ensures-pure _ w (nothing w s (already_run h)))
        (λ fresh.
          Ensures-if env.test_mode.list_only _ _ w
            (λ lists.
              Ensures-bind _ _ w
                (Ensures-Keeps _ w (Keeps-path_string (Shows-WorldInvariant vs e) env self.path) s)
                λ path w1 s1.
                  Ensures-bind {R = λ u w'. Sees vs e w'} _ _ w1
                    (Ensures-modify _ w1 (Shows-print (listed _) vs e w1.log refl s1))
                    (λ u w2 s2. Ensures-pure _ w2 (nothing w2 s2 (only_listed lists))))
            (λ runs. Ensures-bind _ _ w (run_selected-Ensures self vs w fresh s) λ res w1 c.
              Ensures-bind _ _ w1
                (Ensures-Keeps _ w1
                  (Keeps-path_string (Shows-WorldInvariant (vs ++ c.0) e) env self.path) c.1)
                λ path w2 s2.
                  Ensures-bind _ _ w2 (log_case-Ensures res.0.0 path res.0.1 n (vs ++ c.0) w2 s2)
                    λ m w3 s3. Ensures-pure _ w3 (record {
                      new = c.0 ++ res.0.0 ∷ [];
                      failed = failed_case res.0.0;
                      seen = subst (λ k. Sees k e w3) (append_assoc vs c.0 (res.0.0 ∷ [])) s3.0;
                      as_promised = c.2;
                      counted = s3.1;
                    })))
    where
      nothing :
          (w' : World)
          → Sees vs e w'
          → CaseLines env self [] 0
          → Added vs e (CaseLines env self) n n w'
      nothing w' s' l = record {
        new = [];
        failed = 0;
        seen = rw (append-nil vs) s';
        as_promised = l;
        counted = omega arith;
      }

  pub run_tests-Ensures :
      (tests : List GtuTestCase) (n : ℕ) (vs : List GtuTestResult) (w : World)
      → Sees vs e w
      → Ensures Unit
          (run_tests env tests n)
          w
          (λ res w'. Added vs e (SuiteLines env tests) n res.0 w')
  unfolding run_tests
  run_tests-Ensures [] n vs w s = Ensures-pure _ w (record {
    new = [];
    failed = 0;
    seen = rw (append-nil vs) s;
    as_promised = no_case;
    counted = omega arith;
  })
  run_tests-Ensures (self ∷ tests) n vs w s =
      Ensures-bind _ _ w (run_test-Ensures self n vs w s) λ first w1 a.
        Ensures-bind _ _ w1 (run_tests-Ensures tests first.0 (vs ++ a.new) w1 a.seen) λ rest w2 b.
          Ensures-pure _ w2 (record {
            new = a.new ++ b.new;
            failed = a.failed + b.failed;
            seen = subst (λ k. Sees k e w2) (append_assoc vs a.new b.new) b.seen;
            as_promised = next_case a.new b.new a.failed b.failed a.as_promised b.as_promised;
            counted = omega (arith, a.counted, b.counted);
          })
