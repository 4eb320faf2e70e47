-- ===== src/Log/Tap/Counts.antt =====
-- The numbers of the test results and the plan in the log of src/log/tap.c.
use Prim.Native.Nat.{◌^◌, ◌%◌}
use giitestutils.Base.{
  ℕ, suc, ◌+◌, ◌≤◌, ◌≡◌, refl, Bool, true, false, List, [], ◌∷◌, ◌++◌, Option, none, some, arith,
  Bytes, if◌then◌else◌, Option-cases, inl, inr,
}
use giitestutils.Base.Decimal.{format_no_args}
use giitestutils.Log.Tap.{
  Line, plan, empty_plan, diagnostic, bail_out, result, listed, Log, initial, print, log_test_plan,
  gtu_log_disable_test_plan, gtu_log_test_plan, gtu_log_diagnostic, gtu_log_bail_out,
  log_test_result, gtu_log_test_success, gtu_log_test_skipped, gtu_log_test_failed,
}

-- The results in the lines are numbered on from `first`, as 32-bit counters, and `last` is the
-- number of the last one.
abbrev pub Numbered : ℕ → List Line → ℕ → Type 0
Numbered first [] last = first ≡ last
Numbered first (result success number d t u ∷ lines) last =
    (number ≡ (first + 1) % 2 ^ 32) × Numbered number lines last
Numbered first (_ ∷ lines) last = Numbered first lines last

abbrev pub plans : List Line → ℕ
plans [] = 0
plans (plan n ∷ lines) = suc (plans lines)
plans (empty_plan ∷ lines) = suc (plans lines)
plans (_ ∷ lines) = plans lines

-- The test results, and those of them that are `not ok`.
abbrev pub results : List Line → ℕ
results [] = 0
results (result success number d t u ∷ lines) = suc (results lines)
results (_ ∷ lines) = results lines

abbrev pub failures : List Line → ℕ
failures [] = 0
failures (result false number d t u ∷ lines) = suc (failures lines)
failures (_ ∷ lines) = failures lines

pub plans-append : (xs ys : List Line) → plans (xs ++ ys) ≡ plans xs + plans ys
plans-append [] ys = omega arith
plans-append (plan n ∷ xs) ys = omega (arith, plans-append xs ys)
plans-append (empty_plan ∷ xs) ys = omega (arith, plans-append xs ys)
plans-append (_ ∷ xs) ys = plans-append xs ys

pub results-append : (xs ys : List Line) → results (xs ++ ys) ≡ results xs + results ys
results-append [] ys = omega arith
results-append (result s n d t u ∷ xs) ys = omega (arith, results-append xs ys)
results-append (_ ∷ xs) ys = results-append xs ys

pub failures-append : (xs ys : List Line) → failures (xs ++ ys) ≡ failures xs + failures ys
failures-append [] ys = omega arith
failures-append (result false n d t u ∷ xs) ys = omega (arith, failures-append xs ys)
failures-append (result true n d t u ∷ xs) ys = failures-append xs ys
failures-append (_ ∷ xs) ys = failures-append xs ys

Numbered-append :
    (first middle last : ℕ) (xs ys : List Line)
    → Numbered first xs middle
    → Numbered middle ys last
    → Numbered first (xs ++ ys) last
Numbered-append first middle last [] ys h k = rw h k
Numbered-append first middle last (result s n d t u ∷ xs) ys h k =
    (h.0, Numbered-append n middle last xs ys h.1 k)
Numbered-append first middle last (_ ∷ xs) ys h k = Numbered-append first middle last xs ys h k

-- The log is a TAP stream so far.
pub record IsTap (log : Log) : Type 0 where
  pub numbered : Numbered 0 log.out log.test_count
  pub one_plan : plans log.out ≤ (if log.plan_entered then 1 else 0)

pub IsTap-initial : IsTap initial
IsTap-initial = record { numbered = refl; one_plan = omega arith }

abbrev IsResult : Line → Type 0
IsResult (result s n d t u) = Unit
IsResult _ = ⊥

-- A line that is no result keeps the numbers.
Numbered-print :
    (line : Line) (log : Log)
    → ¬ IsResult line
    → IsTap log
    → Numbered 0 (log.out ++ line ∷ []) log.test_count
Numbered-print line log p t =
    Numbered-append 0 log.test_count log.test_count log.out (line ∷ []) t.numbered (alone line p)
  where
    alone : (l : Line) → ¬ IsResult l → Numbered log.test_count (l ∷ []) log.test_count
    alone (result s n d x u) q = absurd (q tt)
    alone (plan n) q = refl
    alone _ q = refl

-- A line that is neither a result nor a plan.
abbrev pub IsPlain : Line → Type 0
IsPlain line = (¬ IsResult line) × (plans (line ∷ []) ≡ 0)

pub print-IsTap : (line : Line) (log : Log) → IsPlain line → IsTap log → IsTap (print line log)
print-IsTap line log p t = record {
  numbered = Numbered-print line log p.0 t;
  one_plan = omega (arith, plans-append log.out (line ∷ []));
}

pub log_test_plan-IsTap :
    (n : ℕ) (disable : Bool) (log : Log) → IsTap log → IsTap (log_test_plan n disable log).1
unfolding log_test_plan
log_test_plan-IsTap n disable log t = ground (
  arith,
  Numbered-print (plan n) log (λ e. e) t,
  Numbered-print empty_plan log (λ e. e) t,
  plans-append log.out (plan n ∷ []),
  plans-append log.out (empty_plan ∷ []),
)

pub log_test_result-IsTap :
    (s : Bool) (d x u : Option Bytes) (log : Log) → IsTap log → IsTap (log_test_result s d x u log)
unfolding log_test_result
log_test_result-IsTap s d x u log t =
    let number : ℕ = (log.test_count + 1) % 2 ^ 32 in
    record {
      numbered =
          Numbered-append 0 log.test_count number log.out (result s number d x u ∷ []) t.numbered
            (refl, refl);
      one_plan = omega (arith, plans-append log.out (result s number d x u ∷ []), t.one_plan);
    }

-- A call of the log.
pub data Call : Type 0 where
  test_plan : ℕ → Call
  disable_test_plan : Call
  diagnose : Bytes → Call
  bail : Bool → Option Bytes → Call
  success skipped failed : Option Bytes → Option Bytes → Call
  list_path : Bytes → Call

abbrev pub after : Call → Log → Log
after (test_plan n) log = (gtu_log_test_plan n log).1
after disable_test_plan log = (gtu_log_disable_test_plan log).1
after (diagnose format) log = (gtu_log_diagnostic format log).1
after (bail should_trap format) log = (gtu_log_bail_out {A = Unit {0}} should_trap format log).1
after (success d u) log = gtu_log_test_success d u log
after (skipped d u) log = gtu_log_test_skipped d u log
after (failed d u) log = gtu_log_test_failed d u log
after (list_path path) log = print (listed path) log

pub after-IsTap : (c : Call) (log : Log) → IsTap log → IsTap (after c log)
unfolding gtu_log_test_plan gtu_log_disable_test_plan gtu_log_diagnostic gtu_log_bail_out
after-IsTap (test_plan n) log t = log_test_plan-IsTap n false log t
after-IsTap disable_test_plan log t = log_test_plan-IsTap 0 true log t
after-IsTap (diagnose format) log t = elim (Option-cases (format_no_args format)) [
  | inl bad ↦ rw (bad, after) t
  | inr (m, good) ↦ rw (good, after) (print-IsTap (diagnostic m) log ((λ e. e), refl) t)
]
after-IsTap (bail should_trap none) log t =
    print-IsTap (bail_out none) _ ((λ e. e), refl) (log_test_plan-IsTap 0 true log t)
after-IsTap (bail should_trap (some format)) log t = elim (Option-cases (format_no_args format)) [
  | inl bad ↦ rw (bad, after) (log_test_plan-IsTap 0 true log t)
  | inr (m, good) ↦
      rw (good, after)
        (print-IsTap (bail_out (some m)) _ ((λ e. e), refl) (log_test_plan-IsTap 0 true log t))
]
after-IsTap (success d u) log t = log_test_result-IsTap true d none u log t
after-IsTap (skipped d u) log t = log_test_result-IsTap true d _ u log t
after-IsTap (failed d u) log t = log_test_result-IsTap false d none u log t
after-IsTap (list_path path) log t = print-IsTap (listed path) log ((λ e. e), refl) t

abbrev pub after_all : List Call → Log → Log
after_all [] log = log
after_all (c ∷ cs) log = after_all cs (after c log)

-- After any calls of the log, in any order, from a log that is a TAP stream so far, the test results
-- are numbered consecutively as 32-bit counters, up to `test_count`, and there is at most one plan,
-- none before log_test_plan has been entered.
pub after_all-IsTap : (cs : List Call) (log : Log) → IsTap log → IsTap (after_all cs log)
after_all-IsTap [] log t = t
after_all-IsTap (c ∷ cs) log t = after_all-IsTap cs (after c log) (after-IsTap c log t)
