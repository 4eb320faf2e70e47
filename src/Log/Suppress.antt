-- ===== src/Log/Suppress.antt =====
-- src/log/glib-handlers.c: the function that decides whether a message is suppressed. `F` is the type
-- of such functions, `D` of their data; `none` is NULL. The lock is not modelled.
use giitestutils.Base.{Bool, ◌||◌, not, Option, none, if◌then◌else◌, Checked, done, critical}
use giitestutils.Log.Tap.{is_some}

pub record SuppressInfo (F D : Type 0) : Type 0 where
  pub func : Option F
  pub user_data : Option D

module _ {F D : Type 0} where
  abbrev pub nothing : SuppressInfo F D
  nothing = record { func = none; user_data = none }

  unfoldable pub gtu_log_g_install_suppress_func :
      Option F → Option D → SuppressInfo F D → Checked (SuppressInfo F D)
  gtu_log_g_install_suppress_func func user_data info =
      if is_some info.func || is_some info.user_data
      then critical info
      else done (record { func = func; user_data = user_data })

  -- `same` compares two function pointers, which may be NULL.
  unfoldable pub gtu_log_g_uninstall_suppress_func :
      (Option F → Option F → Bool) → Option F → SuppressInfo F D → Checked (SuppressInfo F D)
  gtu_log_g_uninstall_suppress_func same func info =
      if not (same info.func func) then critical info else done nothing
