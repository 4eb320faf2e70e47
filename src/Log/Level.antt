-- ===== src/Log/Level.antt =====
-- GLib's GLogLevelFlags (a bit set, one field for each bit; `user` is the rest), the switches on it
-- in src/log/glib-format.c, and src/flags.c.
pub mod Flags
use giitestutils.Base.{ℕ, Bool, true, false, not, Option, none, some, ◌==◌, if◌then◌else◌}

pub record GLogLevelFlags : Type 0 where
  pub recursion : Bool
  pub fatal : Bool
  pub error : Bool
  pub critical : Bool
  pub warning : Bool
  pub message : Bool
  pub info : Bool
  pub debug : Bool
  pub user : ℕ

-- The cases of the switches over `level & G_LOG_LEVEL_MASK`.
pub data Level : Type 0 where
  error critical warning message info debug : Level

abbrev pub only_bit : Bool → Bool → Bool → Bool → Bool → Bool → Option Level
only_bit true false false false false false = some Level.error
only_bit false true false false false false = some Level.critical
only_bit false false true false false false = some Level.warning
only_bit false false false true false false = some Level.message
only_bit false false false false true false = some Level.info
only_bit false false false false false true = some Level.debug
only_bit _ _ _ _ _ _ = none

-- switch (level & G_LOG_LEVEL_MASK): the mask leaves out the recursion and the fatal flag, and a
-- case is taken when its bit alone is left. `none` is the default case, g_assert_not_reached.
unfoldable pub switch_level : GLogLevelFlags → Option Level
switch_level f =
    if not (f.user == 0)
    then none
    else only_bit f.error f.critical f.warning f.message f.info f.debug

abbrev pub level_flags : Level → GLogLevelFlags
level_flags l = record {
  recursion = false;
  fatal = false;
  error = elim l [ Level.error ↦ true | _ ↦ false ];
  critical = elim l [ Level.critical ↦ true | _ ↦ false ];
  warning = elim l [ Level.warning ↦ true | _ ↦ false ];
  message = elim l [ Level.message ↦ true | _ ↦ false ];
  info = elim l [ Level.info ↦ true | _ ↦ false ];
  debug = elim l [ Level.debug ↦ true | _ ↦ false ];
  user = 0;
}
