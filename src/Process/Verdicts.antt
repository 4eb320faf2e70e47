-- ===== src/Process/Verdicts.antt =====
-- What a test harness reads from the log of src/log/tap.c: the verdicts of its result lines.
use giitestutils.Base.{
  ℕ, ◌≡◌, ap, ◌∙◌, refl, Bool, true, false, List, [], ◌∷◌, ◌++◌, Option, none, some, arith,
  append-nil, Bytes, Option-cases, inl, inr,
}
use giitestutils.Base.Decimal.{format_no_args}
use giitestutils.Base.Exec.Keeps.{Keeps}
use giitestutils.Log.Tap.{
  Line, diagnostic, bail_out, result, Log, print, log_test_plan, gtu_log_disable_test_plan,
  gtu_log_diagnostic, gtu_log_bail_out, log_test_result,
}
use giitestutils.Process.{GtuTestResult, pass, skip, fail}
use giitestutils.Process.Stream.{MessageInvariant, WorldInvariant, OnLog, OnLog-WorldInvariant}

-- The verdict of a result line, by its success and its TAP directive.
abbrev pub verdict_of : Bool → Option Bytes → GtuTestResult
verdict_of true none = pass
verdict_of true (some directive) = skip
verdict_of false directive = fail

abbrev pub verdicts : List Line → List GtuTestResult
verdicts [] = []
verdicts (result success number d tap_directive u ∷ lines) =
    verdict_of success tap_directive ∷ verdicts lines
verdicts (_ ∷ lines) = verdicts lines

pub verdicts-append : (xs ys : List Line) → verdicts (xs ++ ys) ≡ verdicts xs ++ verdicts ys
verdicts-append [] ys = refl
verdicts-append (result s n d t u ∷ xs) ys = ap (◌∷◌ (verdict_of s t)) (verdicts-append xs ys)
verdicts-append (_ ∷ xs) ys = verdicts-append xs ys

-- The verdicts in the log, and the number of tests that its plan announced.
pub record Shows (vs : List GtuTestResult) (expected : ℕ) (log : Log) : Type 0 where
  pub shown : verdicts log.out ≡ vs
  pub announced : log.expected_tests ≡ expected

pub Shows-print :
    (line : Line) (vs : List GtuTestResult) (e : ℕ) (log : Log)
    → verdicts (line ∷ []) ≡ []
    → Shows vs e log
    → Shows vs e (print line log)
Shows-print line vs e log q s = record {
  shown =
      verdicts-append log.out (line ∷ [])
      ∙ ap (◌++◌ (verdicts log.out)) q
      ∙ append-nil (verdicts log.out)
      ∙ s.shown;
  announced = s.announced;
}

pub Shows-result :
    (success : Bool) (d t u : Option Bytes) (vs : List GtuTestResult) (e : ℕ) (log : Log)
    → Shows vs e log
    → Shows (vs ++ verdict_of success t ∷ []) e (log_test_result success d t u log)
unfolding log_test_result
Shows-result success d t u vs e log s = record {
  shown =
      verdicts-append log.out (result success _ d t u ∷ [])
      ∙ ap (λ l. l ++ verdict_of success t ∷ []) s.shown;
  announced = s.announced;
}

Shows-disable :
    (vs : List GtuTestResult) (e : ℕ) (log : Log)
    → Shows vs e log
    → Shows vs e (gtu_log_disable_test_plan log).1
unfolding gtu_log_disable_test_plan log_test_plan
Shows-disable vs e log s = record {
  shown = ground (arith, s.shown);
  announced = ground (arith, s.announced);
}

Shows-diagnostic :
    (vs : List GtuTestResult) (e : ℕ) (format : Bytes)
    → Keeps (Shows vs e) (gtu_log_diagnostic format)
unfolding gtu_log_diagnostic
Shows-diagnostic vs e format = record {
  at = λ log s. elim (Option-cases (format_no_args format)) [
    | inl bad ↦ rw (bad, gtu_log_diagnostic) s
    | inr (m, good) ↦ rw (good, gtu_log_diagnostic) (Shows-print (diagnostic m) vs e log refl s)
  ];
}

Shows-bail_out :
    (vs : List GtuTestResult) (e : ℕ) (should_trap : Bool) (format : Option Bytes)
    → Keeps (Shows vs e) (gtu_log_bail_out {A = Unit {0}} should_trap format)
unfolding gtu_log_bail_out
Shows-bail_out vs e should_trap none = record {
  at = λ log s. Shows-print (bail_out none) vs e _ refl (Shows-disable vs e log s);
}
Shows-bail_out vs e should_trap (some format) = record {
  at = λ log s. elim (Option-cases (format_no_args format)) [
    | inl bad ↦ rw (bad, gtu_log_bail_out) (Shows-disable vs e log s)
    | inr (m, good) ↦
        rw (good, gtu_log_bail_out)
          (Shows-print (bail_out (some m)) vs e _ refl (Shows-disable vs e log s))
  ];
}

-- Messages are no verdicts.
pub Shows-MessageInvariant : (vs : List GtuTestResult) (e : ℕ) → MessageInvariant (Shows vs e)
Shows-MessageInvariant vs e = record {
  diagnostic = Shows-diagnostic vs e;
  bail_out = Shows-bail_out vs e;
}

pub Shows-WorldInvariant : (vs : List GtuTestResult) (e : ℕ) → WorldInvariant (OnLog (Shows vs e))
Shows-WorldInvariant vs e = OnLog-WorldInvariant (Shows-MessageInvariant vs e)
