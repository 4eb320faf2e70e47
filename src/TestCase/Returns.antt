-- ===== src/TestCase/Returns.antt =====
-- The run of a simple test function returns: src/test-case/run-setjmp.c and run-init.c, in a run with
-- --keep-going that is not verbose.
use giitestutils.Base.{
  ◌≡◌, ◌≢◌, refl, ap, ◌∙◌, Bool, true, false, [], ◌∷◌, ◌++◌, Option, none, some, arith, Bytes,
  codes, Option-cases, inl, inr,
}
use giitestutils.Base.Exec.{returned, pure, gets, modify, on_option, on_checked, ◌>>=◌}
use giitestutils.Base.Exec.Steps.{bind-returned}
use giitestutils.TestPath.{GtuPath, gtu_path_is_valid, gtu_path_to_string, join}
use giitestutils.Log.Color.{disable, gtu_log_lookup_color}
use giitestutils.Log.Level.{Level}
use giitestutils.Log.Level.Flags.{IsConsistent}
use giitestutils.Log.Message.{GtuLogGMessage}
use giitestutils.Log.Message.Text.{leveled}
use giitestutils.Log.Hooks.{run_hooks, gtu_log_hooks_push, gtu_log_hooks_pop}
use giitestutils.Process.{
  Env, World, GtuTestResult, invalid, pass, skip, fail, HookTarget, verbosity_handler, log_hook,
  running_case, goes_on, gtu_log_domain, or_abort, unexpected, on_match, call_hook, finish,
  message_handler, g_log,
}
use giitestutils.Process.Expect.{match_message}
use giitestutils.Process.Policy.LogHook.{both, get_tr_context-lem}
use giitestutils.Process.Policy.InTest.{treat-unexpected, log_hook_call-lem}
use giitestutils.TestCase.Exec.{
  Body, ends, logs, asserts_fail, skips, expects, checks, counts, run_body, gtu_assertion_message,
  gtu_skip_if_reached_message, gtu_test_case_exec_inner, assertion_text, location_text,
}
use giitestutils.TestCase.Complex.{path_string, library_message}
use giitestutils.TestCase.{
  GtuTestCase, announce, run_func, pop_log_hook, first_run, gtu_test_case_dispose,
  gtu_test_case_has_run,
}

-- The run is not verbose and keeps going behind a failure, assertions are not made fatal, and GLib
-- does not abort behind an INFO message of the library itself, as long as it is not fatal.
pub record IsQuiet (env : Env) : Type 0 where
  pub init : env.has_initialized ≡ true
  pub consistent : IsConsistent env.g_test
  pub not_verbose : env.g_test.verbose ≡ false
  pub keeps_going : env.keep_going ≡ true
  pub not_fatal : env.fatal_asserts ≡ false
  pub survives :
      (body : Bytes) → env.glib_aborts (leveled (some gtu_log_domain) Level.info false body) ≡ false

-- A test function that logs nothing and expects nothing: what it does is to end, to fail an
-- assertion, or to skip with a message or a place.
abbrev pub IsSimple : Body → Type 0
IsSimple ends = Unit
IsSimple (asserts_fail l m) = Unit
IsSimple (skips (some l) m) = Unit
IsSimple (skips none (some m)) = Unit
IsSimple _ = ⊥

abbrev pub outcome : Body → GtuTestResult
outcome ends = pass
outcome (asserts_fail l m) = fail
outcome (skips place m) = skip
outcome _ = invalid

pub outcome-valid : (body : Body) → IsSimple body → outcome body ≢ invalid
outcome-valid ends s h = ground arith
outcome-valid (asserts_fail l m) s h = ground arith
outcome-valid (skips place m) s h = ground arith
outcome-valid (logs m next) s h = s
outcome-valid (expects d l r next) s h = s
outcome-valid (checks n next) s h = s
outcome-valid (counts n next) s h = s

module _ (env : Env) (q : IsQuiet env) where
  message_handler-quiet :
      (body : Bytes) (t : HookTarget) (w : World)
      → w.hooks ≡ both t
      → w.expected_msgs ≡ some []
      → message_handler env (leveled (some gtu_log_domain) Level.info false body) w
        ≡ (returned goes_on, w)
  unfolding message_handler on_match unexpected match_message pure
  message_handler-quiet body t w h e =
      let m : GtuLogGMessage = leveled (some gtu_log_domain) Level.info false body in
      ap (λ hooks. (run_hooks (call_hook env) hooks m >>= λ a. finish env a.0 a.1) w) h
      ∙ treat-unexpected env q.init q.consistent (some gtu_log_domain) Level.info false body t w
          false (log_hook_call-lem env q.init q.consistent (some gtu_log_domain) m [] w refl e)
          (λ f. refl)
      ∙ rw q.not_verbose refl

  g_log-quiet :
      (body : Bytes) (t : HookTarget) (w : World)
      → w.hooks ≡ both t
      → w.expected_msgs ≡ some []
      → g_log env (leveled (some gtu_log_domain) Level.info false body) w ≡ (returned goes_on, w)
  unfolding g_log pure
  g_log-quiet body t w h e =
      bind-returned _ _ w goes_on w (message_handler-quiet body t w h e) ∙ rw (q.survives body) refl

  library_message-quiet :
      (body : Bytes) (t : HookTarget) (w : World)
      → w.hooks ≡ both t
      → w.expected_msgs ≡ some []
      → library_message env Level.info body w ≡ (returned tt, w)
  unfolding library_message pure
  library_message-quiet body t w h e = bind-returned _ _ w goes_on w (g_log-quiet body t w h e)

  bold-some :
      (color : Bool)
      → (text : Bytes) × (gtu_log_lookup_color color (record disable { bold = true }) ≡ some text)
  unfolding gtu_log_lookup_color
  bold-some true = (_, refl)
  bold-some false = (_, refl)

  disable-some : (color : Bool) → (text : Bytes) × (gtu_log_lookup_color color disable ≡ some text)
  unfolding gtu_log_lookup_color
  disable-some true = (_, refl)
  disable-some false = (_, refl)

  announce-quiet :
      (arrows path : Bytes) (t : HookTarget) (w : World)
      → w.hooks ≡ both t
      → w.expected_msgs ≡ some []
      → announce env arrows path w ≡ (returned tt, w)
  unfolding announce
  announce-quiet arrows path t w h e =
      let (begin, b) = bold-some env.supports_color in
      let (end, d) = disable-some env.supports_color in
      bind-returned _ _ w begin w (rw (b, or_abort) refl)
      ∙ bind-returned _ _ w end w (rw (d, or_abort) refl)
      ∙ library_message-quiet (begin ++ arrows ++ path ++ end) t w h e

  pub path_string-valid :
      (path : GtuPath) (w : World)
      → gtu_path_is_valid path ≡ true
      → (text : Bytes) × (path_string env path w ≡ (returned (some text), w))
  unfolding path_string gtu_path_to_string on_checked pure
  path_string-valid path w v = elim (Option-cases path.cached_string) [
    | inl fresh ↦ (join path.elements, ground arith)
    | inr (s, cached) ↦ (s, ground arith)
  ]

  -- The message that a simple function leaves.
  abbrev left : Body → Option Bytes
  left (asserts_fail l m) = some (assertion_text l m)
  left (skips place (some m)) = some m
  left (skips (some l) none) = some (codes "Check failed at " ++ location_text l)
  left _ = none

  started : World → World
  started w = record w { tr_context = some (record { message = none; result = pass }) }

  stopped : World → Body → World
  stopped w body = record w {
    tr_context = some (record { message = left body; result = outcome body });
  }

  run_body-simple :
      (body : Body) (w : World)
      → IsSimple body
      → run_body env body (started w) ≡ (returned tt, stopped w body)
  unfolding run_body gtu_assertion_message gtu_skip_if_reached_message started stopped pure modify
  run_body-simple ends w s = refl
  run_body-simple (asserts_fail l m) w s =
      bind-returned _ _ _ (record { message = none; result = pass }) (started w)
        (get_tr_context-lem env q.init q.consistent (started w) _ refl refl)
      ∙ rw (q.not_fatal, q.keeps_going) refl
  run_body-simple (skips place (some m)) w s =
      bind-returned _ _ _ (record { message = none; result = pass }) (started w)
        (get_tr_context-lem env q.init q.consistent (started w) _ refl refl)
  run_body-simple (skips (some l) none) w s =
      bind-returned _ _ _ (record { message = none; result = pass }) (started w)
        (get_tr_context-lem env q.init q.consistent (started w) _ refl refl)
  run_body-simple (skips none none) w s = absurd s
  run_body-simple (logs m next) w s = absurd s
  run_body-simple (expects d l r next) w s = absurd s
  run_body-simple (checks h next) w s = absurd s
  run_body-simple (counts h next) w s = absurd s

  exec_inner-simple :
      (body : Body) (w : World)
      → IsSimple body
      → w.tr_context ≡ none
      → gtu_test_case_exec_inner env body w
        ≡ (returned (outcome body, left body), record w { tr_context = none })
  unfolding gtu_test_case_exec_inner started stopped gets modify on_option pure
  exec_inner-simple body w s idle =
      bind-returned _ _ w none w (rw idle refl)
      ∙ bind-returned _ _ w tt (started w) refl
      ∙ bind-returned _ _ (started w) tt (stopped w body) (run_body-simple body w s)
      ∙ bind-returned _ _ (stopped w body)
          (some (record { message = left body; result = outcome body })) (stopped w body) refl
      ∙ bind-returned _ _ (stopped w body) tt (record w { tr_context = none }) refl

-- A test case of a simple function, that has not run.
pub record IsSimpleCase (self : GtuTestCase) : Type 0 where
  pub body : Body
  pub simple : IsSimple body
  pub has_func : self.func ≡ some body
  pub not_complex : self.subunits ≡ none
  pub expects : self.expected_msgs ≡ some []
  pub fresh : gtu_test_case_has_run self ≡ false
  pub named : gtu_path_is_valid self.path ≡ true

-- No case is running, and the only hook is that of gtu_init.
pub record IsIdle (w : World) : Type 0 where
  pub target : HookTarget
  pub hooked : w.hooks ≡ record { func = verbosity_handler; target = target } ∷ []
  pub idle : w.tr_context ≡ none

module _ (env : Env) (q : IsQuiet env) where
  during : GtuTestCase → World → World
  during self w = record w {
    expected_msgs = self.expected_msgs;
    hooks = record { func = log_hook; target = running_case } ∷ w.hooks;
  }

  abbrev pub after_case : World → World
  after_case w = record w { expected_msgs = none; tr_context = none }

  pop-during :
      (self : GtuTestCase) (w : World)
      → pop_log_hook env (record (during self w) { tr_context = none })
        ≡ (returned tt, record w { expected_msgs = self.expected_msgs; tr_context = none })
  unfolding pop_log_hook gtu_log_hooks_pop during gets modify on_option
  pop-during self w =
      bind-returned _ _ _ (record { func = log_hook; target = running_case } ∷ w.hooks) _ refl

  run_func-simple :
      (self : GtuTestCase) (c : IsSimpleCase self) (w : World)
      → w.tr_context ≡ none
      → run_func env self w
        ≡ (returned (outcome c.body, left env q c.body), record w { tr_context = none })
  unfolding run_func on_option
  run_func-simple self c w idle =
      rw (c.not_complex, c.has_func, on_option) (exec_inner-simple env q c.body w c.simple idle)

  pub first_run-simple :
      (self : GtuTestCase) (c : IsSimpleCase self) (w : World)
      → IsIdle w
      → first_run env self w ≡ (
        returned (
          (outcome c.body, left env q c.body),
          gtu_test_case_dispose (record self { result = outcome c.body }),
        ),
        after_case w,
      )
  unfolding first_run gtu_log_hooks_push during modify pure
  first_run-simple self c w i =
      let (text, named) = path_string-valid env q self.path w c.named in
      let hooked : (during self w).hooks ≡ both i.target =
        ap (◌∷◌ (record { func = log_hook; target = running_case })) i.hooked in
      bind-returned _ _ w (some text) w named
      ∙ bind-returned _ _ w tt (record w { expected_msgs = self.expected_msgs }) refl
      ∙ bind-returned _ _ (record w { expected_msgs = self.expected_msgs }) tt (during self w) refl
      ∙ bind-returned _ _ (during self w) tt (during self w)
          (announce-quiet env q _ _ i.target (during self w) hooked c.expects)
      ∙ bind-returned _ _ (during self w) (outcome c.body, left env q c.body)
          (record (during self w) { tr_context = none })
          (run_func-simple self c (during self w) i.idle)
      ∙ bind-returned _ _ _ tt (record (during self w) { tr_context = none })
          (announce-quiet env q _ _ i.target (record (during self w) { tr_context = none }) hooked
            c.expects)
      ∙ bind-returned _ _ _ tt _ (pop-during self w)
      ∙ bind-returned _ _ _ tt (after_case w) refl
