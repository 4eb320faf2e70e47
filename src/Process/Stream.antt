-- ===== src/Process/Stream.antt =====
-- What the handling of a message keeps of the test log.
use giitestutils.Base.{
  ℕ, Bool, true, false, Option, none, some, List, [], ◌∷◌, Bytes, if◌then◌else◌, Option-cases, inl,
  inr,
}
use giitestutils.Base.Exec.{Exec, Outcome, returned, aborted, pure}
use giitestutils.Base.Exec.Keeps.{Keeps, Keeps-pure, Keeps-stop, Keeps-if, Keeps-modify, Keeps-bind}
use giitestutils.Log.Message.{GtuLogGMessage}
use giitestutils.Log.Tap.{
  Log, gtu_log_diagnostic, gtu_log_bail_out, log_test_plan, log_test_result, print, listed,
}
use giitestutils.Log.Hooks.{GtuLogAction, continue, ignore, suppress, abort, Hook, run_hooks}
use giitestutils.Process.{
  Env, World, TestRunContext, fail, skip, HookFunc, verbosity_handler, log_hook, HookTarget, on_log,
  or_abort, get_tr_context, set_tr_context, verbosity_handler_call, fail_unexpected, unexpected,
  expected, look_up, on_match, log_hook_call, finish, call_hook, suppress_message, emit,
  message_handler, g_log, failed_check,
}
use giitestutils.Process.Expect.{GtuExpectedMessage, match_message}

-- A property of the log that messages keep.
pub record MessageInvariant (Q : Log → Type 0) : Type 0 where
  pub diagnostic : (format : Bytes) → Keeps Q (gtu_log_diagnostic format)
  pub bail_out :
      (should_trap : Bool) (format : Option Bytes)
      → Keeps Q (gtu_log_bail_out {A = Unit {0}} should_trap format)

-- A property of the log that each way to print into it keeps.
pub record LogInvariant (Q : Log → Type 0) : Type 0 where
  pub messages : MessageInvariant Q
  pub plan : (n : ℕ) (disable : Bool) → Keeps Q (log_test_plan n disable)
  pub result :
      (success : Bool) (d t u : Option Bytes) (log : Log)
      → Q log
      → Q (log_test_result success d t u log)
  pub listing : (path : Bytes) (log : Log) → Q log → Q (print (listed path) log)

-- The property of the log, of the whole state.
abbrev pub OnLog : (Log → Type 0) → World → Type 0
OnLog Q w = Q w.log

-- A property of the state that the handling of messages keeps, and so does a test function.
pub record WorldInvariant (P : World → Type 0) : Type 0 where
  pub diagnostic : (format : Bytes) → Keeps P (on_log (gtu_log_diagnostic format))
  pub bail_out :
      (should_trap : Bool) (format : Option Bytes)
      → Keeps P (on_log (gtu_log_bail_out {A = Unit {0}} should_trap format))
  pub failing : (message : Bytes) → Keeps P (set_tr_context (some message) fail)
  pub skipping : (message : Bytes) → Keeps P (set_tr_context (some message) skip)
  pub expecting :
      (msgs : List GtuExpectedMessage) (w : World)
      → P w
      → P (record w { expected_msgs = some msgs })

pub Keeps-on_log {ℓ} :
    {A : Type ℓ} (Q : Log → Type 0) (m : Exec Log A) → Keeps Q m → Keeps (OnLog Q) (on_log m)
unfolding on_log
Keeps-on_log Q m k = record { at = λ w h. k.at w.log h }

-- What messages keep of the log, they keep of the state.
pub OnLog-WorldInvariant : {Q : Log → Type 0} → MessageInvariant Q → WorldInvariant (OnLog Q)
OnLog-WorldInvariant {Q} q = record {
  diagnostic = λ format. Keeps-on_log Q _ (q.diagnostic format);
  bail_out = λ should_trap format. Keeps-on_log Q _ (q.bail_out should_trap format);
  failing = λ message. Keeps-modify _ (λ w h. h);
  skipping = λ message. Keeps-modify _ (λ w h. h);
  expecting = λ msgs w h. h;
}

module _ (P : World → Type 0) where
  pub Keeps-or_abort {ℓ} : {A : Type ℓ} (o : Option A) → Keeps P (or_abort o)
  Keeps-or_abort none = record { at = λ w h. h }
  Keeps-or_abort (some a) = record { at = λ w h. h }

  pub Keeps-get_tr_context : (env : Env) → Keeps P (get_tr_context env)
  Keeps-get_tr_context env = record { at = λ w h. by_context w h w.tr_context }
    where
      by_context :
          (w : World)
          → P w
          → (o : Option TestRunContext)
          → P
              (elim o as (λ k. Outcome TestRunContext × World) [
                | none ↦ (aborted, w)
                | some c ↦
                    if env.has_initialized
                    then elim c.message [ none ↦ (returned c, w) | some m ↦ (aborted, w) ]
                    else (aborted, w)
              ]).1
      by_context w h none = h
      by_context w h (some c) = by_message w h c.message env.has_initialized
        where
          by_message :
              (w : World)
              → P w
              → (o : Option Bytes) (b : Bool)
              → P
                  (if b
                    then elim o as (λ k. Outcome TestRunContext × World) [
                      | none ↦ (returned c, w)
                      | some m ↦ (aborted, w)
                    ]
                    else (aborted, w)).1
          by_message w h none true = h
          by_message w h (some m) true = h
          by_message w h o false = h

module _ {P : World → Type 0} (p : WorldInvariant P) (env : Env) where
  Keeps-verbosity : (m : GtuLogGMessage) → Keeps P (verbosity_handler_call env m)
  unfolding verbosity_handler_call
  Keeps-verbosity m = Keeps-bind _ _ (Keeps-or_abort P _) (λ b. Keeps-pure _)

  Keeps-unexpected : (m : GtuLogGMessage) → Keeps P (unexpected env m)
  unfolding unexpected fail_unexpected
  Keeps-unexpected m = Keeps-if _ _ _ (Keeps-pure _) (
      Keeps-if _ _ _
        (Keeps-bind _ _ (Keeps-or_abort P _) (λ t.
          Keeps-bind _ _ (Keeps-get_tr_context P env)
            (λ c. Keeps-bind _ _ (p.failing _) (λ u. Keeps-pure _))))
        (Keeps-pure _))

  Keeps-expected :
      (msgs : List GtuExpectedMessage) (m : GtuLogGMessage) → Keeps P (expected env msgs m)
  unfolding expected
  Keeps-expected msgs m =
      Keeps-bind _ _ (Keeps-modify _ (p.expecting msgs))
        (λ u. Keeps-bind _ _ (Keeps-or_abort P _) (λ b. Keeps-pure _))

  Keeps-look_up :
      (d : Option Bytes) (msgs : Option (List GtuExpectedMessage)) (m : GtuLogGMessage)
      → Keeps P (look_up env d msgs m)
  unfolding look_up
  Keeps-look_up none msgs m = Keeps-unexpected m
  Keeps-look_up (some d) none m = Keeps-stop _
  Keeps-look_up (some d) (some msgs) m = elim (Option-cases (match_message d m msgs)) [
    | inl e ↦ rw (e, on_match) (Keeps-unexpected m)
    | inr (msgs', e) ↦ rw (e, on_match) (Keeps-expected msgs' m)
  ]

  Keeps-call_hook :
      (f : HookFunc) (t : HookTarget) (m : GtuLogGMessage) → Keeps P (call_hook env f t m)
  unfolding call_hook log_hook_call
  Keeps-call_hook verbosity_handler t m = Keeps-verbosity m
  Keeps-call_hook log_hook t m = record {
    at = λ w h. (Keeps-look_up m.domain w.expected_msgs m).at w h;
  }

  Keeps-run_hooks :
      (hooks : List (Hook HookFunc HookTarget)) (m : GtuLogGMessage)
      → Keeps P (run_hooks (call_hook env) hooks m)
  unfolding run_hooks
  Keeps-run_hooks [] m = Keeps-pure _
  Keeps-run_hooks (h ∷ hooks) m =
      Keeps-bind _ _ (Keeps-call_hook h.func h.target m)
        (λ answer. next answer.0 answer (Keeps-run_hooks hooks answer.1))
    where
      next :
          (a : GtuLogAction) (answer : GtuLogAction × GtuLogGMessage)
          → Keeps P (run_hooks (call_hook env) hooks answer.1)
          → Keeps P (elim a [
            | continue ↦ run_hooks (call_hook env) hooks answer.1
            | ignore ↦ pure answer
            | suppress ↦ pure answer
            | abort ↦ pure answer
          ])
      next continue answer k = k
      next ignore answer k = Keeps-pure _
      next suppress answer k = Keeps-pure _
      next abort answer k = Keeps-pure _

  Keeps-finish : (a : GtuLogAction) (m : GtuLogGMessage) → Keeps P (finish env a m)
  unfolding finish suppress_message emit
  Keeps-finish continue m =
      Keeps-bind _ _
        (Keeps-bind _ _ (Keeps-or_abort P _)
          (λ text. Keeps-if _ _ _ (p.bail_out true (some text)) (p.diagnostic text)))
        (λ u. Keeps-pure _)
  Keeps-finish ignore m = Keeps-pure _
  Keeps-finish suppress m =
      Keeps-bind _ _
        (Keeps-bind _ _ (Keeps-or_abort P _)
          (λ head. Keeps-bind _ _ (Keeps-or_abort P _) (λ text. p.diagnostic _)))
        (λ u. Keeps-pure _)
  Keeps-finish abort m = Keeps-pure _

  pub Keeps-message_handler : (m : GtuLogGMessage) → Keeps P (message_handler env m)
  unfolding message_handler
  Keeps-message_handler m = record {
    at = λ w h.
        (Keeps-bind _ _ (Keeps-run_hooks w.hooks m) (λ answer. Keeps-finish answer.0 answer.1)).at w
          h;
  }

  pub Keeps-g_log : (m : GtuLogGMessage) → Keeps P (g_log env m)
  unfolding g_log
  Keeps-g_log m =
      Keeps-bind _ _ (Keeps-message_handler m)
        (λ signal. Keeps-if _ _ _ (Keeps-stop _) (Keeps-pure _))

  pub Keeps-failed_check : (function : Bytes) → Keeps P (failed_check env function)
  unfolding failed_check
  Keeps-failed_check function = Keeps-g_log _
