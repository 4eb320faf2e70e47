-- ===== src/TestCase/Exec/Percent.antt =====
-- The text of a failed assertion is a format string: src/test-case/run-setjmp.c passes it to
-- gtu_log_bail_out and gtu_log_diagnostic of src/log/tap.c.
use giitestutils.Base.{
  ℕ, ◌≡◌, refl, ap, ◌∙◌, true, false, [], ◌∷◌, ◌++◌, Option, none, some, arith, Bytes, All, ◌==◌,
}
use giitestutils.Base.Decimal.{format_no_args, format_no_args-plain}
use giitestutils.Base.Exec.{exited, undefined}
use giitestutils.Base.Exec.Steps.{bind-returned}
use giitestutils.Log.Tap.{
  Log, bail_out, print, gtu_log_bail_out, gtu_log_disable_test_plan, log_test_plan,
}
use giitestutils.Process.{Env, World, TestRunContext, on_log}
use giitestutils.TestCase.Exec.{Location, gtu_assertion_message, assertion_text}

-- The first per cent sign of the text begins a conversion.
pub record HasConversion (text : Bytes) : Type 0 where
  pub before : Bytes
  pub conversion : ℕ
  pub after : Bytes
  pub splits : text ≡ before ++ b'%' ∷ conversion ∷ after
  pub plain : All (λ c. (c == b'%') ≡ false) before
  pub other : (conversion == b'%') ≡ false

format_no_args-conversion :
    (before : Bytes) (c : ℕ) (after : Bytes)
    → All (λ b. (b == b'%') ≡ false) before
    → (c == b'%') ≡ false
    → format_no_args (before ++ b'%' ∷ c ∷ after) ≡ none
unfolding format_no_args
format_no_args-conversion [] c after p o = rw o refl
format_no_args-conversion (b ∷ []) c after p o = rw (p.0, o) refl
format_no_args-conversion (b ∷ d ∷ before) c after p o =
    rw (p.0, format_no_args-conversion (d ∷ before) c after p.1 o) refl

disable_test_plan-lem :
    (log : Log) → (gtu_log_disable_test_plan log).1 ≡ record log { plan_entered = true }
unfolding gtu_log_disable_test_plan log_test_plan
disable_test_plan-lem log = ground arith

bail_out-plain :
    (text : Bytes) (w : World)
    → format_no_args text ≡ some text
    → on_log (gtu_log_bail_out {A = Unit {0}} false (some text)) w ≡ (
      exited 99,
      record w { log = print (bail_out (some text)) (record w.log { plan_entered = true }) },
    )
unfolding on_log gtu_log_bail_out
bail_out-plain text w h =
    rw (h, on_log, gtu_log_bail_out)
      (ap (λ log. (exited 99, record w { log = print (bail_out (some text)) log }))
        (disable_test_plan-lem w.log))

bail_out-conversion :
    (text : Bytes) (w : World)
    → format_no_args text ≡ none
    → (on_log (gtu_log_bail_out {A = Unit {0}} false (some text)) w).0 ≡ undefined
unfolding on_log gtu_log_bail_out
bail_out-conversion text w h = rw (h, on_log, gtu_log_bail_out) refl

-- A failed assertion in a run without --keep-going and --fatal-asserts. If its text has no per cent
-- sign, the process prints it on a Bail out! line, prints no plan, and exits with status 99. If the
-- first per cent sign of the text begins a conversion, as in the assertion of a remainder, the
-- behaviour is undefined: the text is the format of a printf without arguments. Conditions:
-- gtu_init has run, and a test that has been given no result is running.
pub assertion_message-bail_out :
    (env : Env) (l : Location) (m : Option Bytes) (w : World) (c : TestRunContext)
    → env.has_initialized ≡ true
    → env.keep_going ≡ false
    → env.fatal_asserts ≡ false
    → w.tr_context ≡ some c
    → c.message ≡ none
    → (All (λ b. (b == b'%') ≡ false) (assertion_text l m)
        → gtu_assertion_message env l m w ≡ (
          exited 99,
          record w {
            log =
                print (bail_out (some (assertion_text l m))) (record w.log { plan_entered = true });
          },
        ))
      × (HasConversion (assertion_text l m) → (gtu_assertion_message env l m w).0 ≡ undefined)
unfolding gtu_assertion_message
assertion_message-bail_out env l m w c init stops soft in_context no_message =
    let text : Bytes = assertion_text l m in
    let bails : gtu_assertion_message env l m w
        ≡ on_log (gtu_log_bail_out {A = Unit {0}} false (some text)) w =
      bind-returned _ _ w c w (ground (arith, init, in_context, no_message))
      ∙ rw (soft, stops) refl in
    (
      λ plain. bails ∙ bail_out-plain text w (format_no_args-plain text plain),
      λ v.
          ap (λ r. r.0) bails
          ∙ bail_out-conversion text w (
              ap format_no_args v.splits
              ∙ format_no_args-conversion v.before v.conversion v.after v.plain v.other),
    )
