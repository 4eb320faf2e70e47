-- ===== src/TestCase/Complex/Restores.antt =====
-- The loop of src/test-case/complex.c leaves the hooks as they are.
use giitestutils.Base.{ℕ, ◌≢◌, ◌∙◌, List, [], ◌∷◌, Option, some, arith, Bytes, length, ◌==◌}
use giitestutils.Base.Exec.{Exec}
use giitestutils.Base.Exec.Keeps.{Keeps, Keeps-modify}
use giitestutils.Base.Exec.Ensures.{
  Ensures, Ensures-pure, Ensures-aborted, Ensures-bind, Ensures-modify, Ensures-if, Ensures-Keeps,
  Ensures-weaken,
}
use giitestutils.TestPath.{GtuPath}
use giitestutils.Process.{
  Env, World, GtuTestResult, invalid, pass, skip, fail, on_log, set_tr_context,
}
use giitestutils.Process.Stream.{WorldInvariant, Keeps-or_abort}
use giitestutils.TestCase.Exec.{Body, gtu_test_case_exec_inner}
use giitestutils.TestCase.Exec.Verdict.{IsVerdict, Same, exec_inner-Returned}
use giitestutils.TestCase.Stream.{Keeps-path_string, Keeps-subunit_path, Keeps-note_selection}
use giitestutils.TestCase.Complex.{
  Subunit, log_subunit, run_subunit, run_subunits, all_passed, complex_result, gtu_complex_case_run,
}

module _ (before : World) where
  Same-on_log {ℓ} : {A : Type ℓ} (m : Exec _ A) → Keeps (Same before) (on_log m)
  unfolding on_log
  Same-on_log m = record {
    at = λ w s. record { hooked = s.hooked; once = s.once; expects = s.expects };
  }

  Same-context :
      (message : Option Bytes) (r : GtuTestResult) → Keeps (Same before) (set_tr_context message r)
  Same-context message r =
      Keeps-modify _ (λ w s. record { hooked = s.hooked; once = s.once; expects = s.expects })

  pub Same-WorldInvariant : WorldInvariant (Same before)
  Same-WorldInvariant = record {
    diagnostic = λ format. Same-on_log _;
    bail_out = λ should_trap format. Same-on_log _;
    failing = λ message. Same-context (some message) fail;
    skipping = λ message. Same-context (some message) skip;
    expecting =
        λ msgs w s. record { hooked = s.hooked; once = s.once; expects = λ e. ground (arith, e) };
  }

IsVerdict-valid : (r : GtuTestResult) (m : Option Bytes) → IsVerdict r m → r ≢ invalid
IsVerdict-valid pass m v e = ground (arith, e)
IsVerdict-valid skip m v e = ground (arith, e)
IsVerdict-valid fail m v e = ground (arith, e)
IsVerdict-valid invalid m v e = v

module _ (env : Env) (before : World) where
  pub exec-Same :
      (func : Body) (w : World)
      → Same before w
      → Ensures Unit
          (gtu_test_case_exec_inner env func)
          w
          (λ ran w'. Same before w' × (ran.0 ≢ invalid))
  exec-Same func w s = Ensures-weaken _ w (exec_inner-Returned env func w s.expects) (λ ran w' r. (
    record { hooked = r.hooked ∙ s.hooked; once = r.once ∙ s.once; expects = r.expects },
    IsVerdict-valid ran.0 ran.1 r.verdict,
  ))

  run_subunit-Same :
      (r : GtuTestResult) (body : Body) (w : World)
      → Same before w
      → Ensures Unit (run_subunit env r body) w (λ ran w'. Same before w' × (ran.0 ≢ invalid))
  unfolding run_subunit
  run_subunit-Same fail body w s = Ensures-pure _ w (s, λ e. ground arith)
  run_subunit-Same invalid body w s = exec-Same body w s
  run_subunit-Same pass body w s = exec-Same body w s
  run_subunit-Same skip body w s = exec-Same body w s

  log_subunit-Same :
      (r : GtuTestResult) (path message : Option Bytes) (n : ℕ) (w : World)
      → Same before w
      → Ensures Unit (log_subunit env r path message n) w (λ m w'. Same before w')
  unfolding log_subunit
  log_subunit-Same pass path message n w s =
      Ensures-bind {R = λ u w'. Same before w'} _ _ w
        (Ensures-modify _ w (record { hooked = s.hooked; once = s.once; expects = s.expects }))
        (λ u w' s'. Ensures-pure _ w' s')
  log_subunit-Same skip path message n w s =
      Ensures-bind {R = λ u w'. Same before w'} _ _ w
        (Ensures-modify _ w (record { hooked = s.hooked; once = s.once; expects = s.expects }))
        (λ u w' s'. Ensures-pure _ w' s')
  log_subunit-Same fail path message n w s =
      Ensures-bind {R = λ u w'. Same before w'} _ _ w
        (Ensures-modify _ w (record { hooked = s.hooked; once = s.once; expects = s.expects }))
        (λ u w' s'. Ensures-pure _ w' s')
  log_subunit-Same invalid path message n w s = Ensures-aborted w tt

  run_subunits-Same :
      (path : GtuPath) (us : List Subunit) (r : GtuTestResult) (n : ℕ) (w : World)
      → Same before w
      → Ensures Unit (run_subunits env path us r n) w (λ ran w'. Same before w')
  unfolding run_subunits
  run_subunits-Same path [] r n w s = Ensures-pure _ w s
  run_subunits-Same path (u ∷ us) r n w s =
      let p = Same-WorldInvariant before in
      Ensures-bind _ _ w (Ensures-Keeps _ w (Keeps-subunit_path p env path u.nick) s)
        λ temp_path w1 s1.
          Ensures-bind _ _ w1 (Ensures-Keeps _ w1 (Keeps-note_selection p env temp_path) s1)
            λ v w2 s2. Ensures-bind _ _ w2 (run_subunit-Same r u.test_impl w2 s2) λ ran w3 s3.
              Ensures-bind _ _ w3 (Ensures-Keeps _ w3 (Keeps-path_string p env temp_path) s3.0)
                λ text w4 s4.
                  Ensures-bind _ _ w4 (log_subunit-Same ran.0 text ran.1 n w4 s4)
                    λ m w5 s5. run_subunits-Same path us ran.0 m w5 s5

  all_passed-Same :
      (w : World)
      → Same before w
      → Ensures Unit (all_passed env) w (λ ran w'. Same before w' × (ran.0 ≢ invalid))
  unfolding all_passed
  all_passed-Same w s =
      Ensures-bind _ _ w (Ensures-Keeps _ w (Keeps-or_abort (Same before) _) s)
        (λ flags w' s'. Ensures-pure _ w' (s', λ e. ground arith))

  complex_result-Same :
      (r : GtuTestResult) (n m : ℕ) (w : World)
      → Same before w
      → Ensures Unit (complex_result env r n m) w (λ ran w'. Same before w' × (ran.0 ≢ invalid))
  unfolding complex_result
  complex_result-Same fail n m w s = Ensures-pure _ w (s, λ e. ground arith)
  complex_result-Same skip n m w s =
      Ensures-if (n == m) _ _ w (λ h. Ensures-pure _ w (s, λ e. ground arith))
        (λ h. all_passed-Same w s)
  complex_result-Same pass n m w s = all_passed-Same w s
  complex_result-Same invalid n m w s = all_passed-Same w s

  pub complex_run-Same :
      (path : GtuPath) (us : List Subunit) (w : World)
      → Same before w
      → Ensures Unit
          (gtu_complex_case_run env path us)
          w
          (λ ran w'. Same before w' × (ran.0 ≢ invalid))
  unfolding gtu_complex_case_run
  complex_run-Same path us w s =
      Ensures-bind _ _ w (run_subunits-Same path us invalid 0 w s)
        (λ r w' s'. complex_result-Same r.0 r.1 (length us) w' s')
