-- ===== src/Log/Message.antt =====
-- src/log/glib-format.c: a GLib message as text.
pub mod Text
use giitestutils.Base.{
  ℕ, Bool, true, false, List, [], ◌∷◌, ◌++◌, Option, none, some, if◌then◌else◌, Bytes, codes,
}
use giitestutils.Log.Level.{GLogLevelFlags, Level, switch_level}
use giitestutils.Log.Color.{
  GtuLogColor, disable, bold_fg, red, green, yellow, blue, magenta, cyan, gtu_log_lookup_color,
}

pub record GtuLogGMessage : Type 0 where
  pub domain : Option Bytes
  pub flags : GLogLevelFlags
  pub body : Bytes

infixl 10 ◌>>=◌
abbrev ◌>>=◌ : {A B : Type 0} → Option A → (A → Option B) → Option B
none >>= f = none
some a >>= f = f a

abbrev pub level_color : GLogLevelFlags → Option GtuLogColor
level_color flags = elim (switch_level flags) [
  | none ↦ none
  | some Level.error ↦ some (bold_fg red)
  | some Level.critical ↦ some (bold_fg magenta)
  | some Level.warning ↦ some (bold_fg yellow)
  | some Level.message ↦ some (bold_fg green)
  | some Level.info ↦ some (bold_fg blue)
  | some Level.debug ↦ some (bold_fg cyan)
]

abbrev pub level_to_string : GLogLevelFlags → Option Bytes
level_to_string flags = elim (switch_level flags) [
  | none ↦ none
  | some Level.error ↦ some (codes "ERROR")
  | some Level.critical ↦ some (codes "CRITICAL")
  | some Level.warning ↦ some (codes "WARNING")
  | some Level.message ↦ some (codes "MESSAGE")
  | some Level.info ↦ some (codes "INFO")
  | some Level.debug ↦ some (codes "DEBUG")
]

-- The four parts in front of a fatal message's level.
abbrev fatal_parts : Bool → Bool → Option Bytes
fatal_parts supports_color false = some []
fatal_parts supports_color true = do
  begin ← gtu_log_lookup_color supports_color (bold_fg red)
  end ← gtu_log_lookup_color supports_color disable
  some (begin ++ codes "FATAL" ++ end ++ codes "-")

abbrev domain_parts : Option Bytes → Bytes
domain_parts none = []
domain_parts (some []) = []
domain_parts (some (c ∷ cs)) = codes "(**" ++ (c ∷ cs) ++ codes ") "

-- What gtu_log_g_format_message_append appends; `none`: a g_assert failed.
unfoldable pub format_message : Bool → GtuLogGMessage → Option Bytes
unfolding switch_level gtu_log_lookup_color
format_message supports_color message = do
  fatal ← fatal_parts supports_color message.flags.fatal
  level ← level_color message.flags
  begin ← gtu_log_lookup_color supports_color level
  name ← level_to_string message.flags
  end ← gtu_log_lookup_color supports_color disable
  some (fatal ++ begin ++ name ++ end ++ codes ": " ++ domain_parts message.domain ++ message.body)
