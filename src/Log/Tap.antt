-- ===== src/Log/Tap.antt =====
-- src/log/tap.c: the test log on standard output. What one call prints is one `Line`, and `render`
-- gives its bytes. `supports_color` is gtu_log_supports_color.
pub mod Comments
pub mod Counts
use Prim.Native.Nat.{◌^◌, ◌%◌}
use giitestutils.Base.{
  ℕ, ◌+◌, Bool, true, false, not, ◌&&◌, ◌||◌, List, [], ◌∷◌, ◌++◌, Option, none, some, ◌==◌,
  if◌then◌else◌, Bytes, codes,
}
use giitestutils.Base.Decimal.{decimal, format_no_args}
use giitestutils.Base.Exec.{Outcome, returned, exited, aborted, undefined, Exec, pure, ◌>>=◌, ◌>>◌}

pub data Line : Type 0 where
  plan : ℕ → Line
  empty_plan : Line
  diagnostic : Bytes → Line
  bail_out : Option Bytes → Line
  result : Bool → ℕ → Option Bytes → Option Bytes → Option Bytes → Line
  listed : Bytes → Line

abbrev pub newline : ℕ
newline = b'\n'

-- diagnostic ()
abbrev pub marker : Bool → Bytes
marker supports_color =
    if supports_color then 27 ∷ codes "[1m#" ++ (27 ∷ codes "[0m ") else codes "# "

-- The loop of diag_vprintf and what follows it; `buf` is the byte before the rest of the message.
unfoldable pub diag_loop : Bytes → ℕ → Bytes → Bytes
diag_loop mark buf [] = if buf == newline then [] else newline ∷ []
diag_loop mark buf (c ∷ message) =
    (if buf == newline then mark ++ codes "  " else []) ++ (c ∷ diag_loop mark c message)

-- What diag_vprintf prints for a formatted message.
unfoldable pub diag_text : Bool → Bytes → Bytes
unfolding diag_loop
diag_text supports_color message =
    marker supports_color ++ diag_loop (marker supports_color) 0 message

abbrev pub or_empty : Option Bytes → Bytes
or_empty none = []
or_empty (some s) = s

abbrev pub is_some {ℓ} : {A : Type ℓ} → Option A → Bool
is_some none = false
is_some (some a) = true

-- The bytes of a line; the test result is the format of log_test_result.
unfoldable pub render : Bool → Line → Bytes
unfolding decimal diag_text
render color (plan n_tests) = codes "1.." ++ decimal n_tests ++ newline ∷ []
render color empty_plan = codes "1..0 # Skipped: no tests to run\n"
render color (diagnostic message) = diag_text color message
render color (bail_out none) = codes "Bail out!\n"
render color (bail_out (some message)) = codes "Bail out! " ++ message ++ newline ∷ []
render color (result success number description tap_directive user_directive) =
    (if success then [] else codes "not ")
    ++ codes "ok "
    ++ decimal number
    ++ (b' ' ∷ (elim description [ none ↦ codes "-" | some d ↦ d ]))
    ++ (if is_some tap_directive || is_some user_directive then codes " # " else [])
    ++ or_empty tap_directive
    ++ (if is_some tap_directive && is_some user_directive then codes " " else [])
    ++ or_empty user_directive
    ++ newline ∷ []
render color (listed path) = path ++ newline ∷ []

-- The file's static variables, and what has been printed, oldest first. `plan_entered` is the
-- g_once_init of log_test_plan.
pub record Log : Type 0 where
  pub test_count : ℕ
  pub expected_tests : ℕ
  pub plan_entered : Bool
  pub out : List Line

abbrev pub initial : Log
initial = record { test_count = 0; expected_tests = 0; plan_entered = false; out = [] }

abbrev pub print : Line → Log → Log
print line log = record log { out = log.out ++ line ∷ [] }

unfoldable pub log_test_plan : ℕ → Bool → Exec Log (Unit {0})
log_test_plan n_tests disable log =
    if log.plan_entered
    then (returned tt, log)
    else if disable
    then (returned tt, record log { plan_entered = true })
    else if n_tests == 0
    then (exited 0, record (print empty_plan log) { plan_entered = true })
    else (
      returned tt,
      record (print (plan n_tests) log) { plan_entered = true; expected_tests = n_tests },
    )

unfoldable pub gtu_log_disable_test_plan : Exec Log (Unit {0})
unfolding log_test_plan
gtu_log_disable_test_plan = log_test_plan 0 true

unfoldable pub gtu_log_test_plan : ℕ → Exec Log (Unit {0})
unfolding log_test_plan
gtu_log_test_plan n_tests = log_test_plan n_tests false

-- The callers pass a format and no arguments. `none` is NULL, refused by a check.
unfoldable pub gtu_log_diagnostic : Bytes → Exec Log (Unit {0})
unfolding format_no_args
gtu_log_diagnostic format log = elim (format_no_args format) [
  | none ↦ (undefined, log)
  | some message ↦ (returned tt, print (diagnostic message) log)
]

abbrev bail_end {ℓ} : {A : Type ℓ} → Bool → Outcome A
bail_end should_trap = if should_trap then aborted else exited 99

-- It does not return, so its caller may ask for any type.
unfoldable pub gtu_log_bail_out {ℓ} : {A : Type ℓ} → Bool → Option Bytes → Exec Log A
unfolding gtu_log_disable_test_plan format_no_args
gtu_log_bail_out should_trap none log =
    (bail_end should_trap, print (bail_out none) (gtu_log_disable_test_plan log).1)
gtu_log_bail_out should_trap (some format) log = elim (format_no_args format) [
  | none ↦ (undefined, (gtu_log_disable_test_plan log).1)
  | some message ↦
      (bail_end should_trap, print (bail_out (some message)) (gtu_log_disable_test_plan log).1)
]

-- A 32-bit counter.
unfoldable pub log_test_result : Bool → Option Bytes → Option Bytes → Option Bytes → Log → Log
log_test_result success test_description tap_directive user_directive log =
    let number = (log.test_count + 1) % 2 ^ 32 in
    record (print (result success number test_description tap_directive user_directive) log) {
      test_count = number;
    }

abbrev pub gtu_log_test_success : Option Bytes → Option Bytes → Log → Log
gtu_log_test_success description directive = log_test_result true description none directive

abbrev pub gtu_log_test_skipped : Option Bytes → Option Bytes → Log → Log
gtu_log_test_skipped description directive =
    log_test_result true description (some (codes "SKIP")) directive

abbrev pub gtu_log_test_failed : Option Bytes → Option Bytes → Log → Log
gtu_log_test_failed description directive = log_test_result false description none directive
