-- ===== src/TestCase/Stream.antt =====
-- What the run of a test case keeps of the test log.
use giitestutils.Base.{codes, length, ℕ, Option, List, [], ◌∷◌, Bytes}
use giitestutils.Base.Exec.Keeps.{
  Keeps, Keeps-on_checked, Keeps-on_option, Keeps-pure, Keeps-stop, Keeps-gets, Keeps-if,
  Keeps-modify, Keeps-bind,
}
use giitestutils.TestPath.{GtuPath}
use giitestutils.Log.Level.{Level}
use giitestutils.Log.Tap.{Log}
use giitestutils.Process.{
  Env, World, GtuTestResult, invalid, pass, skip, fail, Signal, goes_on, preempted,
}
use giitestutils.Process.Stream.{
  LogInvariant, MessageInvariant, WorldInvariant, OnLog, OnLog-WorldInvariant, Keeps-or_abort,
  Keeps-g_log, Keeps-failed_check,
}
use giitestutils.TestCase.Exec.Stream.{Keeps-exec_inner}
use giitestutils.TestCase.Exec.{Body}
use giitestutils.TestCase.Complex.{
  Subunit, change_log, no_jump, library_message, path_string, subunit_path, log_subunit,
  run_subunit, run_subunits, note_selection, all_passed, complex_result, gtu_complex_case_run,
}
use giitestutils.TestCase.{
  GtuTestCase, announce, run_func, pop_log_hook, first_run, gtu_test_case_run,
}

module _ {P : World → Type 0} (p : WorldInvariant P) (env : Env) where
  pub Keeps-path_string : (path : GtuPath) → Keeps P (path_string env path)
  unfolding path_string
  Keeps-path_string path =
      Keeps-on_checked _ _ _ (λ r. Keeps-pure _)
        (λ r. Keeps-bind _ _ (Keeps-failed_check p env _) (λ s. Keeps-pure _))

  pub Keeps-library_message :
      (level : Level) (body : Bytes) → Keeps P (library_message env level body)
  unfolding library_message
  Keeps-library_message level body = Keeps-bind _ _ (Keeps-g_log p env _) by_signal
    where
      by_signal : (s : Signal) → Keeps P (no_jump s)
      by_signal goes_on = Keeps-pure _
      by_signal preempted = Keeps-stop _

  pub Keeps-subunit_path : (path : GtuPath) (nick : Bytes) → Keeps P (subunit_path env path nick)
  unfolding subunit_path
  Keeps-subunit_path path nick =
      Keeps-on_checked _ _ _ (λ p. Keeps-pure p)
        (λ bad. Keeps-bind _ _ (Keeps-failed_check p env _) (λ s. Keeps-pure _))

  pub Keeps-note_selection : (path : GtuPath) → Keeps P (note_selection env path)
  unfolding note_selection
  Keeps-note_selection path = Keeps-if _ _ _ (Keeps-pure tt) (
      Keeps-library_message Level.message
        (codes "Ignoring skip arguments: cannot skip individual subunits of a complex test case"))

  pub Keeps-announce : (arrows path : Bytes) → Keeps P (announce env arrows path)
  unfolding announce
  Keeps-announce arrows path =
      Keeps-bind _ _ (Keeps-or_abort P _)
        (λ b. Keeps-bind _ _ (Keeps-or_abort P _) (λ e. Keeps-library_message Level.info _))

module _ {Q : Log → Type 0} (q : MessageInvariant Q) (env : Env) where
  pub Keeps-run_subunit :
      (r : GtuTestResult) (body : Body) → Keeps (OnLog Q) (run_subunit env r body)
  unfolding run_subunit
  Keeps-run_subunit fail body = Keeps-pure _
  Keeps-run_subunit invalid body = Keeps-exec_inner q env body
  Keeps-run_subunit pass body = Keeps-exec_inner q env body
  Keeps-run_subunit skip body = Keeps-exec_inner q env body

  pub Keeps-pop_log_hook : Keeps (OnLog Q) (pop_log_hook env)
  unfolding pop_log_hook
  Keeps-pop_log_hook =
      Keeps-bind _ _ (Keeps-gets _)
        (λ hooks. Keeps-on_option _ _ _ (Keeps-stop _) (λ r. Keeps-modify _ (λ w h. h)))

module _ {Q : Log → Type 0} (q : LogInvariant Q) (env : Env) where
  pub Keeps-change_log :
      (f : Log → Log) → ((log : Log) → Q log → Q (f log)) → Keeps (OnLog Q) (change_log f)
  Keeps-change_log f k = Keeps-modify _ (λ w h. k w.log h)

  Keeps-log_subunit :
      (r : GtuTestResult) (path message : Option Bytes) (n : ℕ)
      → Keeps (OnLog Q) (log_subunit env r path message n)
  unfolding log_subunit
  Keeps-log_subunit pass path message n =
      Keeps-bind _ _ (Keeps-change_log _ (q.result _ _ _ _)) (λ u. Keeps-pure _)
  Keeps-log_subunit skip path message n =
      Keeps-bind _ _ (Keeps-change_log _ (q.result _ _ _ _)) (λ u. Keeps-pure _)
  Keeps-log_subunit fail path message n =
      Keeps-bind _ _ (Keeps-change_log _ (q.result _ _ _ _)) (λ u. Keeps-pure _)
  Keeps-log_subunit invalid path message n = Keeps-stop _

  Keeps-run_subunits :
      (path : GtuPath) (us : List Subunit) (r : GtuTestResult) (n : ℕ)
      → Keeps (OnLog Q) (run_subunits env path us r n)
  unfolding run_subunits
  Keeps-run_subunits path [] r n = Keeps-pure _
  Keeps-run_subunits path (u ∷ us) r n =
      Keeps-bind _ _ (Keeps-subunit_path (OnLog-WorldInvariant q.messages) env path u.nick)
        λ temp_path.
          Keeps-bind _ _ (Keeps-note_selection (OnLog-WorldInvariant q.messages) env temp_path) λ v.
            Keeps-bind _ _ (Keeps-run_subunit q.messages env r u.test_impl) λ ran.
              Keeps-bind _ _ (Keeps-path_string (OnLog-WorldInvariant q.messages) env temp_path)
                λ text.
                  Keeps-bind _ _ (Keeps-log_subunit ran.0 text ran.1 n)
                    λ m. Keeps-run_subunits path us ran.0 m

  Keeps-all_passed : Keeps (OnLog Q) (all_passed env)
  unfolding all_passed
  Keeps-all_passed = Keeps-bind _ _ (Keeps-or_abort (OnLog Q) _) (λ f. Keeps-pure _)

  Keeps-complex_result : (r : GtuTestResult) (n m : ℕ) → Keeps (OnLog Q) (complex_result env r n m)
  unfolding complex_result
  Keeps-complex_result fail n m = Keeps-pure _
  Keeps-complex_result skip n m = Keeps-if _ _ _ (Keeps-pure _) Keeps-all_passed
  Keeps-complex_result pass n m = Keeps-all_passed
  Keeps-complex_result invalid n m = Keeps-all_passed

  pub Keeps-complex :
      (path : GtuPath) (us : List Subunit) → Keeps (OnLog Q) (gtu_complex_case_run env path us)
  unfolding gtu_complex_case_run
  Keeps-complex path us =
      Keeps-bind _ _ (Keeps-run_subunits path us invalid 0)
        (λ r. Keeps-complex_result r.0 r.1 (length us))

  Keeps-run_func : (self : GtuTestCase) → Keeps (OnLog Q) (run_func env self)
  unfolding run_func
  Keeps-run_func self =
      Keeps-on_option _ _ _ (Keeps-on_option _ _ _ (Keeps-stop _) (Keeps-exec_inner q.messages env))
        (Keeps-complex self.path)

  Keeps-first_run : (self : GtuTestCase) → Keeps (OnLog Q) (first_run env self)
  unfolding first_run
  Keeps-first_run self =
      Keeps-bind _ _ (Keeps-path_string (OnLog-WorldInvariant q.messages) env self.path) λ path.
        Keeps-bind _ _ (Keeps-modify _ (λ w h. h)) λ u.
          Keeps-bind _ _ (Keeps-modify _ (λ w h. h)) λ u.
            Keeps-bind _ _ (Keeps-announce (OnLog-WorldInvariant q.messages) env _ _) λ u.
              Keeps-bind _ _ (Keeps-run_func self) λ ran.
                Keeps-bind _ _ (Keeps-announce (OnLog-WorldInvariant q.messages) env _ _) λ u.
                  Keeps-bind _ _ (Keeps-pop_log_hook q.messages env)
                    λ u. Keeps-bind _ _ (Keeps-modify _ (λ w h. h)) λ u. Keeps-pure _

  pub Keeps-case_run : (self : GtuTestCase) → Keeps (OnLog Q) (gtu_test_case_run env self)
  unfolding gtu_test_case_run
  Keeps-case_run self =
      Keeps-if _ _ _
        (Keeps-bind _ _ (Keeps-path_string (OnLog-WorldInvariant q.messages) env self.path)
          (λ p. Keeps-pure _))
        (Keeps-first_run self)
