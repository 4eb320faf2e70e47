-- ===== src/TestSuite/Returns.antt =====
-- The run of a suite of simple test cases returns: src/test-suite/run.c, in a run with --keep-going
-- that is not verbose.
use Prim.Native.Nat.{◌^◌}
use giitestutils.Base.{
  ℕ, ◌+◌, ◌<◌, ◌≡◌, ◌≢◌, refl, sym, ◌∙◌, subst, true, false, not, List, [], ◌∷◌, ◌++◌, Option, none,
  some, arith, append_assoc, append-nil, length, All, Bytes, Bool-cases, inl, inr, if◌then◌else◌,
  ◌==◌,
}
use giitestutils.Base.Exec.Ensures.{
  Ensures, Ensures-pure, Ensures-bind, Ensures-modify, Ensures-if, Ensures-gets, Ensures-returned,
  Ensures-weaken,
}
use giitestutils.TestPath.{gtu_path_should_run}
use giitestutils.Log.Tap.{plan, gtu_log_test_plan, log_test_plan}
use giitestutils.Process.{Env, World, GtuTestResult, invalid, pass, skip, fail, on_log}
use giitestutils.Process.Verdicts.{Shows-print, Shows-result, verdicts}
use giitestutils.TestCase.{GtuTestCase, gtu_test_case_has_run, gtu_test_case_run}
use giitestutils.TestCase.Returns.{
  IsQuiet, IsSimpleCase, IsIdle, outcome, outcome-valid, first_run-simple, path_string-valid,
  after_case,
}
use giitestutils.TestCase.Complex.Verdicts.{Sees}
use giitestutils.TestSuite.{
  Children, planned, count_tests, log_case, run_selected, run_test, run_tests,
  gtu_test_suite_run_internal, gtu_test_suite_run,
}
use giitestutils.TestSuite.Plan.{failed_case, total, count_tests-total}
use giitestutils.TestSuite.Accounting.{cases}

-- The verdict that a simple case is going to have.
abbrev pub predicted : (env : Env) (self : GtuTestCase) → IsSimpleCase self → GtuTestResult
predicted env self c = if gtu_path_should_run env.test_mode self.path then outcome c.body else skip

abbrev pub predicted_all :
    (env : Env) (tests : List GtuTestCase) → All IsSimpleCase tests → List GtuTestResult
predicted_all env [] c = []
predicted_all env (self ∷ tests) c = predicted env self c.0 ∷ predicted_all env tests c.1

abbrev pub count_failed : List GtuTestResult → ℕ
count_failed [] = 0
count_failed (v ∷ vs) = failed_case v + count_failed vs

module _ (env : Env) (q : IsQuiet env) (e : ℕ) where
  log_case-returns :
      (r : GtuTestResult) (path message : Option Bytes) (n : ℕ) (vs : List GtuTestResult)
      (w : World)
      → r ≢ invalid
      → Sees vs e w
      → IsIdle w
      → Ensures ⊥
          (log_case env r path message n)
          w
          (λ m w'. Sees (vs ++ r ∷ []) e w' × IsIdle w' × (m ≡ n + failed_case r))
  unfolding log_case
  log_case-returns pass path message n vs w v s i =
      Ensures-bind {R = λ u w'. Sees (vs ++ pass ∷ []) e w' × IsIdle w'} _ _ w
        (Ensures-modify _ w (
          Shows-result true path none message vs e w.log s,
          record { target = i.target; hooked = i.hooked; idle = i.idle },
        ))
        (λ u w' s'. Ensures-pure _ w' (s'.0, s'.1, omega arith))
  log_case-returns skip path message n vs w v s i =
      Ensures-bind {R = λ u w'. Sees (vs ++ skip ∷ []) e w' × IsIdle w'} _ _ w
        (Ensures-modify _ w (
          Shows-result true path _ message vs e w.log s,
          record { target = i.target; hooked = i.hooked; idle = i.idle },
        ))
        (λ u w' s'. Ensures-pure _ w' (s'.0, s'.1, omega arith))
  log_case-returns fail path message n vs w v s i =
      Ensures-bind {R = λ u w'. Sees (vs ++ fail ∷ []) e w' × IsIdle w'} _ _ w
        (Ensures-modify _ w (
          Shows-result false path none message vs e w.log s,
          record { target = i.target; hooked = i.hooked; idle = i.idle },
        ))
        (λ u w' s'. Ensures-pure _ w' (s'.0, s'.1, refl))
  log_case-returns invalid path message n vs w v s i = absurd (v refl)

  run_selected-returns :
      (self : GtuTestCase) (c : IsSimpleCase self) (vs : List GtuTestResult) (w : World)
      → Sees vs e w
      → IsIdle w
      → Ensures ⊥
          (run_selected env self)
          w
          (λ ran w'. Sees vs e w' × IsIdle w' × (ran.0.0 ≡ predicted env self c))
  unfolding run_selected gtu_test_case_run
  run_selected-returns self c vs w s i =
      Ensures-if (gtu_path_should_run env.test_mode self.path) _ _ w
        (λ chosen.
          Ensures-if (gtu_test_case_has_run self) _ _ w
            (λ again. absurd (ground (arith, c.fresh, again)))
            (λ first.
              Ensures-returned _ w _ (after_case env q w) (first_run-simple env q self c w i)
                (s, record { target = i.target; hooked = i.hooked; idle = refl }, rw chosen refl)))
        (λ deselected. Ensures-pure _ w (s, i, rw deselected refl))

  predicted-valid : (self : GtuTestCase) (c : IsSimpleCase self) → predicted env self c ≢ invalid
  predicted-valid self c h = elim (Bool-cases (gtu_path_should_run env.test_mode self.path)) [
    | inl chosen ↦ outcome-valid c.body c.simple (ground (arith, chosen, h))
    | inr deselected ↦ ground (arith, deselected, h)
  ]

  run_test-returns :
      (self : GtuTestCase) (c : IsSimpleCase self) (n : ℕ) (vs : List GtuTestResult) (w : World)
      → env.test_mode.list_only ≡ false
      → Sees vs e w
      → IsIdle w
      → Ensures ⊥ (run_test env self n) w (λ res w'.
        Sees (vs ++ predicted env self c ∷ []) e w'
        × IsIdle w'
        × (res.0 ≡ n + failed_case (predicted env self c)))
  unfolding run_test
  run_test-returns self c n vs w run s i =
      Ensures-if (gtu_test_case_has_run self) _ _ w
        (λ again. absurd (ground (arith, c.fresh, again)))
        (λ first.
          Ensures-if env.test_mode.list_only _ _ w (λ lists. absurd (ground (arith, run, lists)))
            (λ runs. Ensures-bind _ _ w (run_selected-returns self c vs w s i) λ ran w1 s1.
              let (text, named) = path_string-valid env q self.path w1 c.named in
              Ensures-bind {R = λ path w'. Sees vs e w' × IsIdle w'} _ _ w1
                (Ensures-returned _ w1 (some text) w1 named (s1.0, s1.1))
                λ path w2 s2.
                  Ensures-bind _ _ w2
                    (log_case-returns ran.0.0 path ran.0.1 n vs w2
                      (λ h. predicted-valid self c (sym s1.2 ∙ h)) s2.0 s2.1)
                    λ m w3 s3. Ensures-pure _ w3 (
                      subst (λ r. Sees (vs ++ r ∷ []) e w3 × IsIdle w3 × (m ≡ n + failed_case r))
                        s1.2 s3)))

  run_tests-returns :
      (tests : List GtuTestCase) (c : All IsSimpleCase tests) (n : ℕ) (vs : List GtuTestResult)
      (w : World)
      → env.test_mode.list_only ≡ false
      → Sees vs e w
      → IsIdle w
      → Ensures ⊥ (run_tests env tests n) w (λ res w'.
        Sees (vs ++ predicted_all env tests c) e w'
        × (res.0 ≡ n + count_failed (predicted_all env tests c)))
  unfolding run_tests
  run_tests-returns [] c n vs w run s i = Ensures-pure _ w (rw (append-nil vs) s, omega arith)
  run_tests-returns (self ∷ tests) c n vs w run s i =
      Ensures-bind _ _ w (run_test-returns self c.0 n vs w run s i) λ first w1 s1.
        Ensures-bind _ _ w1
          (run_tests-returns tests c.1 first.0 (vs ++ predicted env self c.0 ∷ []) w1 run s1.0 s1.1)
          λ rest w2 s2. Ensures-pure _ w2 (
            subst (λ k. Sees k e w2)
                (append_assoc vs (predicted env self c.0 ∷ []) (predicted_all env tests c.1)) s2.0,
            omega (arith, s1.2, s2.1),
          )

total-simple : (tests : List GtuTestCase) → All IsSimpleCase tests → total tests ≡ length tests
total-simple [] c = refl
total-simple (self ∷ tests) c =
    rw (c.0.not_complex, planned) (omega (arith, total-simple tests c.1))

module _ (env : Env) (q : IsQuiet env) where
  test_plan-returns :
      (n e : ℕ) (vs : List GtuTestResult) (w : World)
      → (n == 0) ≡ false
      → w.log.plan_entered ≡ false
      → Sees vs e w
      → IsIdle w
      → Ensures ⊥ (on_log (gtu_log_test_plan n)) w (λ u w'. Sees vs n w' × IsIdle w')
  unfolding on_log gtu_log_test_plan log_test_plan
  test_plan-returns n e vs w some_tests fresh s i = record {
    holds =
        rw (fresh, some_tests)
          (
            record { shown = (Shows-print (plan n) vs e w.log refl s).shown; announced = refl },
            record { target = i.target; hooked = i.hooked; idle = i.idle },
          );
  }

  run_internal-returns :
      (tests : List GtuTestCase) (c : All IsSimpleCase tests) (w : World) (vs : List GtuTestResult)
      → env.test_mode.list_only ≡ false
      → 0 < length tests
      → length tests < 2 ^ 32
      → w.log.plan_entered ≡ false
      → verdicts w.log.out ≡ vs
      → IsIdle w
      → Ensures ⊥ (gtu_test_suite_run_internal env tests) w (λ res w'.
        Sees (vs ++ predicted_all env tests c) (length tests) w'
        × (res.0 ≡ count_failed (predicted_all env tests c)))
  unfolding gtu_test_suite_run_internal
  run_internal-returns tests c w vs run some_tests few fresh seen i =
      let planned_all : count_tests tests 0 ≡ length tests =
        count_tests-total tests 0 (omega arith) ∙ omega (arith, total-simple tests c) in
      Ensures-bind _ _ w
        (test_plan-returns (count_tests tests 0) w.log.expected_tests vs w
          (ground (arith, planned_all, some_tests)) fresh
          (record { shown = seen; announced = refl }) i)
        λ u w1 s1.
          Ensures-weaken _ w1
            (run_tests-returns env q (count_tests tests 0) tests c 0 vs w1 run s1.0 s1.1)
            (λ res w2 s2. (
              subst (λ n. Sees (vs ++ predicted_all env tests c) n w2) planned_all s2.0,
              omega (arith, s2.1),
            ))

  -- A suite of at least one and fewer than 2^32 simple test cases runs to its end, and
  -- gtu_test_suite_run returns the number of failed cases: the log then shows, behind the verdicts
  -- that it had, that of each case in the order of the tree, SKIP for the deselected ones, and the
  -- plan has announced as many tests as there are cases. Conditions: a simple case has not run, is not
  -- complex, has no expectations and a valid path, and its function ends at once, fails an assertion,
  -- or skips with a message or a place; gtu_init has run, and GLib's answers are consistent; the run
  -- keeps going behind failures, is not verbose, not a listing, and not under GTU_DEBUG=fatal-asserts;
  -- GLib does not abort behind an INFO message of GTU's domain that is not fatal; it is the first
  -- run, no plan has been entered, no case is running, and the one hook is that of gtu_init.
  pub suite_run-returns :
      (children : Children) (c : All IsSimpleCase (cases children)) (w : World)
      → env.test_mode.list_only ≡ false
      → 0 < length (cases children)
      → length (cases children) < 2 ^ 32
      → w.has_run ≡ false
      → w.log.plan_entered ≡ false
      → IsIdle w
      → Ensures ⊥ (gtu_test_suite_run env children) w (λ n w'.
        (verdicts w'.log.out ≡ verdicts w.log.out ++ predicted_all env (cases children) c)
        × (w'.log.expected_tests ≡ length (cases children))
        × (n ≡ count_failed (predicted_all env (cases children) c)))
  unfolding gtu_test_suite_run
  suite_run-returns children c w run some_tests few first fresh i =
      let vs : List GtuTestResult = predicted_all env (cases children) c in
      Ensures-if (not env.has_initialized) _ _ w (λ before. absurd (ground (arith, q.init, before)))
        (λ _.
          Ensures-bind
            {R = λ has_run w'.
              (has_run ≡ false)
              × (w'.log.plan_entered ≡ false)
              × (verdicts w'.log.out ≡ verdicts w.log.out)
              × IsIdle w'}
            _ _ w (Ensures-gets _ w (first, fresh, refl, i))
            (λ has_run w1 s1.
              Ensures-if has_run _ _ w1 (λ again. absurd (ground (arith, s1.0)))
                (λ once.
                  Ensures-bind _ _ w1
                    (run_internal-returns (cases children) c w1 (verdicts w.log.out) run some_tests
                      few s1.1 s1.2 s1.3)
                    λ ran w2 s2.
                      Ensures-bind
                        {R = λ u w'.
                          Sees (verdicts w.log.out ++ vs) (length (cases children)) w'
                          × (ran.0 ≡ count_failed vs)}
                        _ _ w2 (Ensures-modify _ w2 s2)
                        (λ u w3 s3. Ensures-pure _ w3 (s3.0.shown, s3.0.announced, s3.1)))))
