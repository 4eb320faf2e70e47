-- ===== src/TestCase/Complex/Verdicts.antt =====
-- The result lines of a complex test case, and its result: src/test-case/complex.c.
use giitestutils.Base.{
  ℕ, ◌+◌, ◌≡◌, ◌≢◌, refl, sym, ap, ◌∙◌, subst, true, false, List, [], ◌∷◌, ◌++◌, Option, none,
  arith, append_assoc, append-nil, length, ◌==◌, Bytes,
}
use giitestutils.Base.Exec.Ensures.{
  Ensures, Ensures-pure, Ensures-aborted, Ensures-bind, Ensures-modify, Ensures-if, Ensures-Keeps,
  Ensures-weaken,
}
use giitestutils.TestPath.{GtuPath}
use giitestutils.Process.{Env, World, GtuTestResult, invalid, pass, skip, fail}
use giitestutils.Process.Stream.{OnLog, Keeps-or_abort}
use giitestutils.Process.Verdicts.{
  Shows, Shows-result, Shows-MessageInvariant, Shows-WorldInvariant,
}
use giitestutils.TestCase.Exec.{Body, gtu_test_case_exec_inner}
use giitestutils.TestCase.Stream.{Keeps-path_string, Keeps-subunit_path, Keeps-note_selection}
use giitestutils.TestCase.Exec.Stream.{Keeps-exec_inner}
use giitestutils.TestCase.Complex.Overall.{skips, last, StaysFailed, overall, switched, overall_lem}
use giitestutils.TestCase.Complex.{
  Subunit, log_subunit, run_subunit, run_subunits, all_passed, complex_result, gtu_complex_case_run,
}

-- The verdicts and the plan in the log of the state.
abbrev pub Sees : List GtuTestResult → ℕ → World → Type 0
Sees vs e = OnLog (Shows vs e)

-- The loop from a state that shows `vs`, with the result `r` and `n` skipped subunits so far.
record Looped (vs : List GtuTestResult) (e : ℕ) (us : List Subunit) (r : GtuTestResult) (n : ℕ)
    (ran : GtuTestResult × ℕ) (w : World) : Type 0 where
  pub new : List GtuTestResult
  pub seen : Sees (vs ++ new) e w
  pub one_each : length new ≡ length us
  pub final : ran.0 ≡ last r new
  pub skipped : ran.1 ≡ n + skips new
  pub stays : StaysFailed r new

module _ (env : Env) (e : ℕ) where
  log_subunit-Ensures :
      (r : GtuTestResult) (path message : Option Bytes) (n : ℕ) (vs : List GtuTestResult)
      (w : World)
      → Sees vs e w
      → Ensures Unit
          (log_subunit env r path message n)
          w
          (λ m w'. Sees (vs ++ r ∷ []) e w' × (m ≡ n + skips (r ∷ [])))
  unfolding log_subunit
  log_subunit-Ensures pass path message n vs w s =
      Ensures-bind {R = λ u w'. Sees (vs ++ pass ∷ []) e w'} _ _ w
        (Ensures-modify _ w (Shows-result true path none message vs e w.log s))
        (λ u w' s'. Ensures-pure _ w' (s', omega arith))
  log_subunit-Ensures skip path message n vs w s =
      Ensures-bind {R = λ u w'. Sees (vs ++ skip ∷ []) e w'} _ _ w
        (Ensures-modify _ w (Shows-result true path _ message vs e w.log s))
        (λ u w' s'. Ensures-pure _ w' (s', omega arith))
  log_subunit-Ensures fail path message n vs w s =
      Ensures-bind {R = λ u w'. Sees (vs ++ fail ∷ []) e w'} _ _ w
        (Ensures-modify _ w (Shows-result false path none _ vs e w.log s))
        (λ u w' s'. Ensures-pure _ w' (s', omega arith))
  log_subunit-Ensures invalid path message n vs w s = Ensures-aborted w tt

  exec-Ensures :
      (r : GtuTestResult) (body : Body) (vs : List GtuTestResult) (w : World)
      → r ≢ fail
      → Sees vs e w
      → Ensures Unit
          (gtu_test_case_exec_inner env body)
          w
          (λ ran w'. Sees vs e w' × (r ≡ fail → ran.0 ≡ fail))
  exec-Ensures r body vs w h s =
      Ensures-weaken _ w
        (Ensures-Keeps _ w (Keeps-exec_inner (Shows-MessageInvariant vs e) env body) s)
        (λ ran w' s'. (s', λ f. absurd (h f)))

  run_subunit-Ensures :
      (r : GtuTestResult) (body : Body) (vs : List GtuTestResult) (w : World)
      → Sees vs e w
      → Ensures Unit (run_subunit env r body) w (λ ran w'. Sees vs e w' × (r ≡ fail → ran.0 ≡ fail))
  unfolding run_subunit
  run_subunit-Ensures fail body vs w s = Ensures-pure _ w (s, λ _. refl)
  run_subunit-Ensures invalid body vs w s = exec-Ensures invalid body vs w (λ f. ground arith) s
  run_subunit-Ensures pass body vs w s = exec-Ensures pass body vs w (λ f. ground arith) s
  run_subunit-Ensures skip body vs w s = exec-Ensures skip body vs w (λ f. ground arith) s

  run_subunits-Ensures :
      (path : GtuPath) (us : List Subunit) (r : GtuTestResult) (n : ℕ) (vs : List GtuTestResult)
      (w : World)
      → Sees vs e w
      → Ensures Unit (run_subunits env path us r n) w (Looped vs e us r n)
  unfolding run_subunits
  run_subunits-Ensures path [] r n vs w s = Ensures-pure _ w (record {
    new = [];
    seen = rw (append-nil vs) s;
    one_each = refl;
    final = refl;
    skipped = omega arith;
    stays = tt;
  })
  run_subunits-Ensures path (u ∷ us) r n vs w s =
      Ensures-bind _ _ w
        (Ensures-Keeps _ w (Keeps-subunit_path (Shows-WorldInvariant vs e) env path u.nick) s)
        λ temp_path w1 s1.
          Ensures-bind _ _ w1
            (Ensures-Keeps _ w1 (Keeps-note_selection (Shows-WorldInvariant vs e) env temp_path) s1)
            λ v w2 s2. Ensures-bind _ _ w2 (run_subunit-Ensures r u.test_impl vs w2 s2) λ ran w3 s3.
              Ensures-bind _ _ w3
                (Ensures-Keeps _ w3 (Keeps-path_string (Shows-WorldInvariant vs e) env temp_path)
                  s3.0)
                λ text w4 s4.
                  Ensures-bind _ _ w4 (log_subunit-Ensures ran.0 text ran.1 n vs w4 s4) λ m w5 s5.
                    Ensures-weaken _ w5
                      (run_subunits-Ensures path us ran.0 m (vs ++ ran.0 ∷ []) w5 s5.0)
                      (λ done_all w6 l. record {
                        new = ran.0 ∷ l.new;
                        seen = subst (λ k. Sees k e w6) (append_assoc vs (ran.0 ∷ []) l.new) l.seen;
                        one_each = omega (arith, l.one_each);
                        final = l.final;
                        skipped = omega (arith, l.skipped, s5.1);
                        stays = (s3.1, l.stays);
                      })

-- A complex case that has returned, from a state that shows `vs`.
pub record ComplexRan (vs : List GtuTestResult) (e : ℕ) (us : List Subunit)
    (ran : GtuTestResult × Option Bytes) (w : World) : Type 0 where
  pub new : List GtuTestResult
  pub seen : Sees (vs ++ new) e w
  pub one_each : length new ≡ length us
  pub stays : StaysFailed invalid new
  pub agrees : ran.0 ≡ overall new

module _ (env : Env) (e : ℕ) where
  all_passed-Ensures :
      (vs : List GtuTestResult) (w : World)
      → Sees vs e w
      → Ensures Unit (all_passed env) w (λ ran w'. Sees vs e w' × (ran.0 ≡ pass))
  unfolding all_passed
  all_passed-Ensures vs w s =
      Ensures-bind _ _ w (Ensures-Keeps _ w (Keeps-or_abort (Sees vs e) _) s)
        (λ flags w' s'. Ensures-pure _ w' (s', refl))

  complex_result-Ensures :
      (r : GtuTestResult) (vs new : List GtuTestResult) (w : World)
      → Sees vs e w
      → Ensures Unit
          (complex_result env r (skips new) (length new))
          w
          (λ ran w'. Sees vs e w' × (ran.0 ≡ switched new r))
  unfolding complex_result
  complex_result-Ensures fail vs new w s = Ensures-pure _ w (s, refl)
  complex_result-Ensures skip vs new w s =
      Ensures-if (skips new == length new) _ _ w (λ h. Ensures-pure _ w (s, rw h refl))
        (λ h.
          Ensures-weaken _ w (all_passed-Ensures vs w s) (λ ran w' s'. (s'.0, s'.1 ∙ rw h refl)))
  complex_result-Ensures pass vs new w s = all_passed-Ensures vs w s
  complex_result-Ensures invalid vs new w s = all_passed-Ensures vs w s

  -- Whatever its test function does, when a complex case that begins in a state whose log shows the
  -- verdicts `vs` returns, the log shows one verdict more for each subunit, all verdicts behind a
  -- failure are failures, and the result is `overall`: FAIL if a subunit failed, SKIP if there were
  -- subunits and all were skipped, PASS otherwise. The announced number of tests is unchanged.
  pub complex_case_run-overall :
      (path : GtuPath) (us : List Subunit) (vs : List GtuTestResult) (w : World)
      → Sees vs e w
      → Ensures Unit (gtu_complex_case_run env path us) w (ComplexRan vs e us)
  unfolding gtu_complex_case_run
  complex_case_run-overall path us vs w s =
      Ensures-bind _ _ w (run_subunits-Ensures env e path us invalid 0 vs w s) λ done_all w1 l.
        subst
          (λ n. Ensures Unit (complex_result env done_all.0 done_all.1 n) w1 (ComplexRan vs e us))
          l.one_each
          (subst
            (λ n.
              Ensures Unit (complex_result env done_all.0 n (length l.new)) w1 (ComplexRan vs e us))
            (omega (arith, l.skipped))
            (Ensures-weaken _ w1 (complex_result-Ensures done_all.0 (vs ++ l.new) l.new w1 l.seen)
              (λ ran w2 q. record {
                new = l.new;
                seen = q.0;
                one_each = l.one_each;
                stays = l.stays;
                agrees = q.1 ∙ ap (switched l.new) l.final ∙ sym (overall_lem l.new l.stays);
              })))
