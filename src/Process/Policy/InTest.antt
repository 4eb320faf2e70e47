-- ===== src/Process/Policy/InTest.antt =====
-- What becomes of a GLib message that is logged while a test runs: log_hook of
-- src/test-case/run-init.c in front of verbosity_handler of src/init.c.
use giitestutils.Base.{
  ◌≡◌, refl, sym, ap, ◌∙◌, Bool, true, false, not, ◌&&◌, ◌||◌, List, Option, none, some, arith,
  Bytes, if◌then◌else◌,
}
use giitestutils.Base.Exec.Steps.{bind-returned, bind-same}
use giitestutils.Base.Exec.{returned, pure, modify, ◌>>=◌}
use giitestutils.Log.Level.{Level}
use giitestutils.Log.Level.Flags.{IsConsistent, is_shown}
use giitestutils.Log.Message.{GtuLogGMessage}
use giitestutils.Log.Message.Text.{leveled}
use giitestutils.Log.Tap.{is_some}
use giitestutils.Log.Hooks.{continue, ignore, suppress, abort, run_hooks}
use giitestutils.Process.{
  Env, World, TestRunContext, HookTarget, on_match, look_up, log_hook_call, call_hook, finish,
  message_handler,
}
use giitestutils.Process.Expect.{GtuExpectedMessage, match_message}
use giitestutils.Process.Policy.LogHook.{
  both, failed_with, unexpected-lem, expected-lem, suppress_message-lem, hooks-abort,
  hooks-continue, hooks-expected,
}
use giitestutils.Process.Policy.{
  is_warning, treatment, perform, fail_test, print_suppressed, drop, bail, print, finish-raised,
  run_hooks-verbosity,
}

-- The running test has been given no result yet.
pub record IsRunning (w : World) (msgs : List GtuExpectedMessage) (t : HookTarget) : Type 0 where
  pub hooked : w.hooks ≡ both t
  pub expects : w.expected_msgs ≡ some msgs
  pub context : TestRunContext
  pub in_context : w.tr_context ≡ some context
  pub no_message : context.message ≡ none

-- The expectations after one of them has matched the message, if one does: a message of no domain
-- matches none.
abbrev pub found : GtuLogGMessage → List GtuExpectedMessage → Option (List GtuExpectedMessage)
found message msgs = elim message.domain [
  | none ↦ none
  | some domain ↦ match_message domain message msgs
]

abbrev pub with_found : Option (List GtuExpectedMessage) → World → World
with_found none w = w
with_found (some msgs) w = record w { expected_msgs = some msgs }

module _ (env : Env) (init : env.has_initialized ≡ true) (g : IsConsistent env.g_test) where
  -- A message that no expectation matches; `fails` is the test of log_hook.
  pub treat-unexpected :
      (domain : Option Bytes) (level : Level) (fatal : Bool) (body : Bytes) (t : HookTarget)
      (w : World) (fails : Bool)
      → log_hook_call env (leveled domain level fatal body) w ≡ (
          if fails
          then (
            returned (abort, leveled domain level fatal body),
            failed_with env init g domain level body w,
          )
          else (returned (continue, leveled domain level fatal body), w))
      → (fails ≡ true → fatal ≡ false)
      → (run_hooks (call_hook env) (both t) (leveled domain level fatal body) >>= λ answer.
            finish env answer.0 answer.1)
          w
        ≡ perform env domain level fatal body
            (if fails
              then fail_test
              else if fatal || is_warning level
              then bail
              else if is_shown env.g_test level
              then print
              else drop)
            w
  unfolding finish failed_with modify pure
  treat-unexpected domain level fatal body t w true h k =
      let m : GtuLogGMessage = leveled domain level fatal body in
      let w' : World = failed_with env init g domain level body w in
      bind-returned _ _ w (abort, m) w' (hooks-abort env init g t m w w' h)
      ∙ sym (bind-returned _ _ w tt w' (rw (k refl) refl))
  treat-unexpected domain level fatal body t w false h k =
      let m : GtuLogGMessage = leveled domain level fatal body in
      bind-returned _ _ w _ w (
        hooks-continue env init g t m w h
        ∙ run_hooks-verbosity env init g domain level fatal body t w)
      ∙ finish-raised env init g domain level fatal body w (fatal || is_warning level)
          (is_shown env.g_test level) (λ r. ground arith)

  -- A message that an expectation matches.
  treat-expected :
      (domain : Option Bytes) (level : Level) (fatal : Bool) (body : Bytes) (t : HookTarget)
      (w w' : World) (verbose : Bool)
      → log_hook_call env (leveled domain level fatal body) w
        ≡ (returned (if verbose then suppress else ignore, leveled domain level fatal body), w')
      → (run_hooks (call_hook env) (both t) (leveled domain level fatal body) >>= λ answer.
            finish env answer.0 answer.1)
          w
        ≡ perform env domain level fatal body (if verbose then print_suppressed else drop) w'
  unfolding finish pure
  treat-expected domain level fatal body t w w' true h =
      bind-returned _ _ w _ w'
        (hooks-expected env init g t (leveled domain level fatal body) w w' true h)
      ∙ bind-same _ _ _ w' w' (suppress_message-lem env init g domain level fatal body w')
  treat-expected domain level fatal body t w w' false h =
      bind-returned _ _ w _ w'
        (hooks-expected env init g t (leveled domain level fatal body) w w' false h)

  pub log_hook_call-lem :
      (domain : Option Bytes) (m : GtuLogGMessage) (msgs : List GtuExpectedMessage) (w : World)
      → m.domain ≡ domain
      → w.expected_msgs ≡ some msgs
      → log_hook_call env m w ≡ on_match env (found m msgs) m w
  unfolding log_hook_call look_up on_match
  log_hook_call-lem none m msgs w d e = rw (d, found) refl
  log_hook_call-lem (some domain) m msgs w d e = rw (d, e, found) refl

  by_found :
      (domain : Option Bytes) (level : Level) (fatal : Bool) (body : Bytes) (t : HookTarget)
      (msgs : List GtuExpectedMessage) (w : World) (o : Option (List GtuExpectedMessage))
      → IsRunning w msgs t
      → log_hook_call env (leveled domain level fatal body) w
        ≡ on_match env o (leveled domain level fatal body) w
      → (run_hooks (call_hook env) (both t) (leveled domain level fatal body) >>= λ answer.
            finish env answer.0 answer.1)
          w
        ≡ perform env domain level fatal body
            (treatment true (is_some o) env.g_test level fatal)
            (with_found o w)
  unfolding on_match
  by_found domain level fatal body t msgs w none r h =
      treat-unexpected domain level fatal body t w (is_warning level && not fatal)
        (h
          ∙ unexpected-lem env init g domain level fatal body w r.context r.in_context r.no_message)
        (λ f. ground arith)
  by_found domain level fatal body t msgs w (some msgs') r h =
      treat-expected domain level fatal body t w (record w { expected_msgs = some msgs' })
        env.g_test.verbose (h ∙ expected-lem env init g msgs' (leveled domain level fatal body) w)

  -- While a test runs: a message that one of its expectations matches, of whatever level and fatal
  -- or not, is counted for the first such expectation, and its text is given to gtu_log_diagnostic
  -- as a suppressed message if the run is verbose and is dropped otherwise; any other warning or
  -- critical that GLib has not marked as fatal, of whatever domain, fails the test with a message
  -- that holds its text and jumps out of it; the text of any other message that is marked as fatal
  -- is given to gtu_log_bail_out with a trap; that of any other is given to gtu_log_diagnostic if
  -- the test mode shows its level, and dropped otherwise. Both functions are given the text as
  -- their format, as in `perform`, so that to give them a text with a conversion (a per cent sign
  -- that is not followed by another) is undefined. Conditions: the message has one level, gtu_init
  -- has run, GLib's answers are consistent, the hooks are those of gtu_init and of the running
  -- case, and the test has been given no result.
  pub message_handler-in_test :
      (domain : Option Bytes) (level : Level) (fatal : Bool) (body : Bytes) (t : HookTarget)
      (msgs : List GtuExpectedMessage) (w : World)
      → IsRunning w msgs t
      → message_handler env (leveled domain level fatal body) w
        ≡ perform env domain level fatal body
            (treatment true
              (is_some (found (leveled domain level fatal body) msgs))
              env.g_test
              level
              fatal)
            (with_found (found (leveled domain level fatal body) msgs) w)
  unfolding message_handler
  message_handler-in_test domain level fatal body t msgs w r =
      ap
        (λ hooks.
          (run_hooks (call_hook env) hooks (leveled domain level fatal body) >>= λ a.
          finish env a.0 a.1)
            w)
        r.hooked
      ∙ by_found domain level fatal body t msgs w (found (leveled domain level fatal body) msgs) r
          (log_hook_call-lem domain (leveled domain level fatal body) msgs w refl r.expects)
