-- ===== src/Startup/Once.antt =====
-- The first call of gtu_init and later ones (src/init.c).
use giitestutils.Base.{Bool, true, false, [], ◌∷◌, ◌++◌, none, some, codes, if◌then◌else◌}
use giitestutils.Base.Exec.{Exec}
use giitestutils.Base.Exec.Ensures.{Ensures}
use giitestutils.Log.Level.{GLogLevelFlags}
use giitestutils.Log.Tap.{Log}
use giitestutils.Log.Suppress.{nothing}
use giitestutils.Process.{verbosity_handler, null, gtu_log_domain, gtu_log_log_domain}
use giitestutils.CommandLine.{Args, Settings}
use giitestutils.CommandLine.Added.{Added}
use giitestutils.Startup.{Startup, Surroundings, invoke_hooks, gtu_test_preempt, with_warnings}

-- A process in which nothing has been set, with these settings and fatal mask of GLib.
abbrev pub unstarted : Settings → GLogLevelFlags → Startup
unstarted settings mask = record {
  settings = settings;
  has_initialized = false;
  fatal_asserts = false;
  hooks = [];
  suppress_info = nothing;
  fatal_mask = mask;
  handlers_installed = false;
  hooks_initialized = false;
  log_domain = none;
  glogv_found = false;
  abort_handler = none;
  glib = record {
    print_handlers = false;
    default_handler = false;
    structured_writer = false;
    fatal_handler = false;
    always_fatal = mask;
    fatal_domains = [];
    exit_handlers = 0;
    test_args = none;
  };
}

-- What G_DEBUG and the command line make fatal.
abbrev pub asked_mask : Surroundings → Bool → GLogLevelFlags
asked_mask env fatal_warnings = if fatal_warnings then with_warnings env.g_debug else env.g_debug

-- What gtu_init leaves for these settings and these arguments of GLib.
abbrev pub started : Surroundings → Settings → Args → Startup
started env settings temp_args = record {
  settings = settings;
  has_initialized = true;
  fatal_asserts = env.gtu_debug_fatal_asserts;
  hooks = record { func = verbosity_handler; target = null } ∷ [];
  suppress_info = record { func = some invoke_hooks; user_data = none };
  fatal_mask = asked_mask env settings.fatal_warnings;
  handlers_installed = true;
  hooks_initialized = true;
  log_domain = some gtu_log_domain;
  glogv_found = true;
  abort_handler = some gtu_test_preempt;
  glib = record {
    print_handlers = true;
    default_handler = true;
    structured_writer = true;
    fatal_handler = true;
    always_fatal = asked_mask env settings.fatal_warnings;
    fatal_domains = gtu_log_domain ∷ gtu_log_log_domain ∷ [];
    exit_handlers = 1;
    test_args = some temp_args;
  };
}

-- With the arguments of GLib set, as init_glib leaves it.
abbrev given_args : Settings → GLogLevelFlags → Args → Startup
given_args t mask temp_args = record (unstarted t mask) {
  glib = record (unstarted t mask).glib { test_args = some temp_args };
}

-- The arguments for GLib.
abbrev pub with_tap : Args → Settings → Args
with_tap args t = args ++ (if t.tap_set then [] else some (codes "--tap") ∷ [])
