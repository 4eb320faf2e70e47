-- ===== src/Process/Policy/LogHook.antt =====
-- What log_hook of src/test-case/run-init.c answers, and how the loop over the hooks goes on.
use giitestutils.Base.{
  ◌≡◌, refl, ◌∙◌, Bool, true, false, not, ◌&&◌, List, [], ◌∷◌, ◌++◌, Option, none, some, arith,
  Bytes, codes, if◌then◌else◌, Bool-cases, inl, inr,
}
use giitestutils.Base.Exec.Steps.{bind-returned}
use giitestutils.Base.Exec.{returned, pure, modify}
use giitestutils.Log.Level.{Level, level_flags}
use giitestutils.Log.Level.Flags.{IsConsistent, gtu_should_log, should_log_levels}
use giitestutils.Log.Message.{GtuLogGMessage}
use giitestutils.Log.Message.Text.{leveled, text_of, format_message-text}
use giitestutils.Log.Tap.{gtu_log_diagnostic}
use giitestutils.Log.Hooks.{continue, ignore, suppress, abort, Hook, run_hooks}
use giitestutils.Process.{
  Env, World, TestRunContext, fail, HookFunc, verbosity_handler, log_hook, HookTarget, running_case,
  on_log, gtu_log_domain, fail_unexpected, unexpected, expected, log_hook_call, call_hook,
  suppress_message, get_tr_context,
}
use giitestutils.Process.Expect.{GtuExpectedMessage}
use giitestutils.Process.Policy.{is_warning}

-- The hooks while a test runs.
abbrev pub both : HookTarget → List (Hook HookFunc HookTarget)
both t =
    record { func = log_hook; target = running_case }
    ∷ record { func = verbosity_handler; target = t }
    ∷ []

module _ (env : Env) (init : env.has_initialized ≡ true) (g : IsConsistent env.g_test) where
  unfoldable pub failed_with : Option Bytes → Level → Bytes → World → World
  failed_with domain level body w = record w {
    tr_context = some (record {
      message =
          some (codes "Unexpected message: " ++ text_of env.supports_color domain level false body);
      result = fail;
    });
  }

  pub get_tr_context-lem :
      (w : World) (c : TestRunContext)
      → w.tr_context ≡ some c
      → c.message ≡ none
      → get_tr_context env w ≡ (returned c, w)
  get_tr_context-lem w c e n = ground arith

  -- The body of the test in log_hook.
  fail_test-lem :
      (domain : Option Bytes) (level : Level) (body : Bytes) (w : World) (c : TestRunContext)
      → w.tr_context ≡ some c
      → c.message ≡ none
      → fail_unexpected env (leveled domain level false body) w
        ≡ (returned (abort, leveled domain level false body), failed_with domain level body w)
  unfolding fail_unexpected failed_with modify pure
  fail_test-lem domain level body w c e n =
      bind-returned _ _ w (text_of env.supports_color domain level false body) w
        (rw (format_message-text env.supports_color domain level false body) refl)
      ∙ bind-returned _ _ w c w (get_tr_context-lem w c e n)
      ∙ bind-returned _ _ w tt (failed_with domain level body w) refl

  pub unexpected-lem :
      (domain : Option Bytes) (level : Level) (fatal : Bool) (body : Bytes) (w : World)
      (c : TestRunContext)
      → w.tr_context ≡ some c
      → c.message ≡ none
      → unexpected env (leveled domain level fatal body) w ≡ (
          if is_warning level && not fatal
          then (returned (abort, leveled domain level fatal body), failed_with domain level body w)
          else (returned (continue, leveled domain level fatal body), w))
  unfolding unexpected pure
  unexpected-lem domain level true body w c e n = elim (Bool-cases (is_warning level)) [
    | inl h ↦ ground arith
    | inr h ↦ ground arith
  ]
  unexpected-lem domain Level.warning false body w c e n =
      fail_test-lem domain Level.warning body w c e n
  unexpected-lem domain Level.critical false body w c e n =
      fail_test-lem domain Level.critical body w c e n
  unexpected-lem domain Level.error false body w c e n = refl
  unexpected-lem domain Level.message false body w c e n = refl
  unexpected-lem domain Level.info false body w c e n = refl
  unexpected-lem domain Level.debug false body w c e n = refl

  gtu_should_log-info :
      gtu_should_log env.has_initialized env.g_test (level_flags Level.info)
      ≡ some env.g_test.verbose
  gtu_should_log-info = rw init (should_log_levels env.g_test Level.info g).0

  pub expected-lem :
      (msgs : List GtuExpectedMessage) (m : GtuLogGMessage) (w : World)
      → expected env msgs m w ≡ (
        returned (if env.g_test.verbose then suppress else ignore, m),
        record w { expected_msgs = some msgs },
      )
  unfolding expected modify pure
  expected-lem msgs m w =
      bind-returned _ _ w tt (record w { expected_msgs = some msgs }) refl
      ∙ bind-returned _ _ _ env.g_test.verbose _ (rw gtu_should_log-info refl)

  pub suppress_message-lem :
      (domain : Option Bytes) (level : Level) (fatal : Bool) (body : Bytes) (w : World)
      → suppress_message env (leveled domain level fatal body) w
        ≡ on_log
            (gtu_log_diagnostic (
              text_of env.supports_color
                (some gtu_log_domain)
                Level.info
                false
                (codes "Suppressed message: ")
              ++ text_of env.supports_color domain level fatal body
              ++ b'\n' ∷ []))
            w
  unfolding suppress_message
  suppress_message-lem domain level fatal body w =
      bind-returned _ _ w
        (text_of env.supports_color (some gtu_log_domain) Level.info false
          (codes "Suppressed message: "))
        w
        (rw
          (format_message-text env.supports_color (some gtu_log_domain) Level.info false
            (codes "Suppressed message: "))
          refl)
      ∙ bind-returned _ _ w (text_of env.supports_color domain level fatal body) w
          (rw (format_message-text env.supports_color domain level fatal body) refl)

  -- What the loop over both hooks does, by what log_hook answers.
  pub hooks-abort :
      (t : HookTarget) (m : GtuLogGMessage) (w w' : World)
      → log_hook_call env m w ≡ (returned (abort, m), w')
      → run_hooks (call_hook env) (both t) m w ≡ (returned (abort, m), w')
  unfolding run_hooks call_hook pure
  hooks-abort t m w w' h = bind-returned _ _ w (abort, m) w' h

  pub hooks-continue :
      (t : HookTarget) (m : GtuLogGMessage) (w : World)
      → log_hook_call env m w ≡ (returned (continue, m), w)
      → run_hooks (call_hook env) (both t) m w
        ≡ run_hooks (call_hook env) (record { func = verbosity_handler; target = t } ∷ []) m w
  unfolding run_hooks call_hook
  hooks-continue t m w h = bind-returned _ _ w (continue, m) w h

  pub hooks-expected :
      (t : HookTarget) (m : GtuLogGMessage) (w w' : World) (verbose : Bool)
      → log_hook_call env m w ≡ (returned (if verbose then suppress else ignore, m), w')
      → run_hooks (call_hook env) (both t) m w
        ≡ (returned (if verbose then suppress else ignore, m), w')
  unfolding run_hooks call_hook pure
  hooks-expected t m w w' true h = bind-returned _ _ w (suppress, m) w' h
  hooks-expected t m w w' false h = bind-returned _ _ w (ignore, m) w' h
