-- ===== src/Startup.antt =====
-- The start of a test program: gtu_init of src/init.c with gtu_log_hooks_init of src/log/hooks.c and
-- gtu_log_g_install_handlers of src/log/glib-handlers.c. One thread runs, so that g_once_init_enter is
-- a test of a flag.
pub mod Once
use giitestutils.Base.{
  ℕ, ◌+◌, Bool, true, false, not, ◌||◌, ◌&&◌, List, [], ◌∷◌, ◌++◌, Option, none, some, ◌==◌,
  if◌then◌else◌, Bytes, Checked, done, critical, length,
}
use giitestutils.Base.Exec.{
  Exec, Outcome, aborted, undefined, pure, stop, gets, modify, ◌>>=◌, ◌>>◌, on_checked, on_option,
}
use giitestutils.Log.Level.{GLogLevelFlags}
use giitestutils.Log.Tap.{is_some, gtu_log_bail_out}
use giitestutils.Log.Hooks.{Hook, gtu_log_hooks_push}
use giitestutils.Log.Suppress.{SuppressInfo, gtu_log_g_install_suppress_func}
use giitestutils.Process.{
  HookFunc, verbosity_handler, HookTarget, null, gtu_log_domain, gtu_log_log_domain,
}
use giitestutils.CommandLine.{Args, Settings, parse_args, glib_args}

-- The function that suppresses messages, and the one that do_abort jumps to.
pub data SuppressFunc : Type 0 where
  invoke_hooks : SuppressFunc

pub data AbortHandler : Type 0 where
  gtu_test_preempt : AbortHandler

-- What has been set in GLib: the handlers for g_print, g_printerr and messages, the writer of
-- structured messages, the handler never_abort, the masks and domains of fatal messages, the exit
-- handlers log_empty_plan, and the arguments of g_test_init.
pub record Glib : Type 0 where
  pub print_handlers : Bool
  pub default_handler : Bool
  pub structured_writer : Bool
  pub fatal_handler : Bool
  pub always_fatal : GLogLevelFlags
  pub fatal_domains : List Bytes
  pub exit_handlers : ℕ
  pub test_args : Option Args

-- The static variables, and what has been set in GLib. `glogv_found`: glogv_address is not NULL.
pub record Startup : Type 0 where
  pub settings : Settings
  pub has_initialized : Bool
  pub fatal_asserts : Bool
  pub hooks : List (Hook HookFunc HookTarget)
  pub suppress_info : SuppressInfo SuppressFunc (Unit {0})
  pub fatal_mask : GLogLevelFlags
  pub handlers_installed : Bool
  pub hooks_initialized : Bool
  pub log_domain : Option Bytes
  pub glogv_found : Bool
  pub abort_handler : Option AbortHandler
  pub glib : Glib

-- The environment: what G_DEBUG and GTU_DEBUG ask for, as g_parse_debug_string reads them, whether
-- libunwind finds the caller of a log handler, and the text of the message by which the check of
-- gtu_init fails, as message_handler prints it.
pub record Surroundings : Type 0 where
  pub isspace : ℕ → Bool
  pub g_debug : GLogLevelFlags
  pub gtu_debug_fatal_asserts : Bool
  pub unwinds : Bool
  pub check_text : Bytes

abbrev pub on_settings {ℓ} : {A : Type ℓ} → Exec Settings A → Exec Startup A
on_settings m s = let (r, settings) = m s.settings in (r, record s { settings = settings })

-- g_assert
abbrev pub assert : Bool → Exec Startup (Unit {0})
assert b = if b then pure tt else stop aborted

-- mask | G_LOG_LEVEL_WARNING | G_LOG_LEVEL_CRITICAL
abbrev pub with_warnings : GLogLevelFlags → GLogLevelFlags
with_warnings mask = record mask { warning = true; critical = true }

abbrev pub gtu_log_g_register_internal_domain : Bytes → Exec Startup (Unit {0})
gtu_log_g_register_internal_domain domain =
    modify
      (λ s. record s { glib = record s.glib { fatal_domains = domain ∷ s.glib.fatal_domains } })

-- find_glogv_address, which the message "test" runs.
unfoldable pub find_glogv_address : Surroundings → Exec Startup (Unit {0})
find_glogv_address env = gets (λ s. s.glogv_found) >>= λ found.
    assert (not found) >> assert env.unwinds >> modify (λ s. record s { glogv_found = true })

unfoldable pub gtu_log_g_install_handlers : Surroundings → Bool → Exec Startup (Unit {0})
gtu_log_g_install_handlers env fatal_warnings = gets (λ s. s.handlers_installed) >>= λ installed.
    if installed
    then pure tt
    else (let mask = if fatal_warnings then with_warnings env.g_debug else env.g_debug in
        modify (λ s. record s {
          fatal_mask = mask;
          glib = record s.glib {
            print_handlers = true;
            always_fatal = mask;
            default_handler = true;
            structured_writer = true;
            fatal_handler = true;
            exit_handlers = s.glib.exit_handlers + 1;
          };
        })
        >> gtu_log_g_register_internal_domain gtu_log_log_domain
        >> modify (λ s. record s { handlers_installed = true }))

-- The check of gtu_log_g_install_suppress_func fails with a message that the handler, which has been
-- installed by then, takes for a fatal one.
unfoldable pub install_invoke_hooks : Exec Startup (Unit {0})
unfolding gtu_log_g_install_suppress_func
install_invoke_hooks = gets (λ s. s.suppress_info) >>= λ info.
    on_checked (gtu_log_g_install_suppress_func (some invoke_hooks) none info)
      (λ installed. modify (λ s. record s { suppress_info = installed })) (λ left. stop aborted)

unfoldable pub gtu_log_hooks_init :
    Surroundings → Bool → Bytes → Option AbortHandler → Exec Startup (Unit {0})
unfolding gtu_log_g_install_handlers find_glogv_address install_invoke_hooks
gtu_log_hooks_init env fatal_warnings log_domain abort_handler = gets (λ s. s) >>= λ before.
    if before.hooks_initialized
    then pure tt
    else (assert (not (is_some before.log_domain))
        >> modify (λ s. record s { log_domain = some log_domain })
        >> gtu_log_g_install_handlers env fatal_warnings
        >> gtu_log_g_register_internal_domain log_domain
        >> find_glogv_address env
        >> assert (is_some abort_handler)
        >> modify (λ s. record s { abort_handler = abort_handler })
        >> install_invoke_hooks
        >> modify (λ s. record s { hooks_initialized = true }))

-- The part of gtu_init in front of g_test_init, and the call: a write outside temp_args is undefined.
unfoldable pub init_glib : Surroundings → Args → Exec Startup (Unit {0})
unfolding parse_args glib_args
init_glib env args =
    on_settings (parse_args env.isspace args)
    >> (gets (λ s. s.settings) >>= λ settings.
        on_option (glib_args args settings.tap_set) (stop undefined) (λ temp_args.
          modify (λ s. record s { glib = record s.glib { test_args = some temp_args } })))

-- The rest of gtu_init, `fatal_warnings` being the local variable.
unfoldable pub init_gtu : Surroundings → Bool → Exec Startup (Unit {0})
unfolding gtu_log_hooks_init gtu_log_hooks_push
init_gtu env fatal_warnings =
    modify (λ s. record s { fatal_asserts = env.gtu_debug_fatal_asserts })
    >> gtu_log_hooks_init env fatal_warnings gtu_log_domain (some gtu_test_preempt)
    >> modify (λ s. record s { hooks = gtu_log_hooks_push verbosity_handler null s.hooks })
    >> modify (λ s. record s { has_initialized = true })

-- The check of gtu_init fails with a critical message of GTU's domain. Before the first call it goes to
-- GLib's own handler; later it is a fatal one, which reaches gtu_log_bail_out, as no test case runs.
unfoldable pub failed_init_check : Surroundings → Exec Startup (Checked (Unit {0}))
unfolding gtu_log_bail_out
failed_init_check env = gets (λ s. s.has_initialized) >>= λ initialized.
    if initialized
    then on_settings (λ s.
      let (r, log) = gtu_log_bail_out true (some env.check_text) s.log in
      (r, record s { log = log }))
    else pure (critical tt)

-- g_test_initialized () is whether g_test_init has been called. `none` for the arguments is NULL.
unfoldable pub gtu_init : Surroundings → Option Args → Exec Startup (Checked (Unit {0}))
unfolding init_glib init_gtu failed_init_check
gtu_init env none = failed_init_check env
gtu_init env (some []) = failed_init_check env
gtu_init env (some (arg ∷ args)) = gets (λ s. s) >>= λ before.
    assert
      (if is_some before.glib.test_args then before.has_initialized else not before.has_initialized)
    >> (if is_some before.glib.test_args then pure tt else init_glib env (arg ∷ args))
    >> (gets (λ s. s.settings) >>= λ settings.
        if before.has_initialized then pure tt else init_gtu env settings.fatal_warnings)
    >> pure (done tt)
