-- ===== src/Log/Message/Text.antt =====
-- The text of a GLib message of one level, as src/log/glib-format.c builds it.
use giitestutils.Base.{
  ℕ, ◌≡◌, refl, Bool, true, false, [], ◌∷◌, ◌++◌, Option, none, some, if◌then◌else◌, Bytes, codes,
}
use giitestutils.Log.Level.{Level, level_flags}
use giitestutils.Log.Message.{GtuLogGMessage, format_message}

-- A message of one level, which GLib may have marked as fatal.
abbrev pub leveled : Option Bytes → Level → Bool → Bytes → GtuLogGMessage
leveled domain level fatal body = record {
  domain = domain;
  flags = record (level_flags level) { fatal = fatal };
  body = body;
}

-- The digit of the terminal's colour, and the name, of a level.
abbrev digit : Level → ℕ
digit Level.error = b'1'
digit Level.critical = b'5'
digit Level.warning = b'3'
digit Level.message = b'2'
digit Level.info = b'4'
digit Level.debug = b'6'

abbrev name : Level → Bytes
name Level.error = codes "ERROR"
name Level.critical = codes "CRITICAL"
name Level.warning = codes "WARNING"
name Level.message = codes "MESSAGE"
name Level.info = codes "INFO"
name Level.debug = codes "DEBUG"

-- A word in a bold colour, where the terminal has colours.
abbrev painted : Bool → ℕ → Bytes → Bytes
painted false digit word = word
painted true digit word = 27 ∷ codes "[1;3" ++ digit ∷ b'm' ∷ word ++ 27 ∷ codes "[0m"

abbrev shown_domain : Option Bytes → Bytes
shown_domain none = []
shown_domain (some []) = []
shown_domain (some (c ∷ cs)) = codes "(**" ++ (c ∷ cs) ++ codes ") "

-- `FATAL-` for a fatal message, the level, a colon, the domain unless it is empty, and the body.
abbrev pub text_of : Bool → Option Bytes → Level → Bool → Bytes → Bytes
text_of color domain level fatal body =
    (if fatal then painted color b'1' (codes "FATAL") ++ codes "-" else [])
    ++ painted color (digit level) (name level)
    ++ codes ": "
    ++ shown_domain domain
    ++ body

-- The text of a message of exactly one level, fatal or not, of any domain and body, on a terminal
-- with colours or without: no g_assert fails, and the text is `text_of`.
pub format_message-text :
    (color : Bool) (domain : Option Bytes) (level : Level) (fatal : Bool) (body : Bytes)
    → format_message color (leveled domain level fatal body)
      ≡ some (text_of color domain level fatal body)
unfolding format_message
format_message-text true domain Level.error true body = refl
format_message-text true domain Level.critical true body = refl
format_message-text true domain Level.warning true body = refl
format_message-text true domain Level.message true body = refl
format_message-text true domain Level.info true body = refl
format_message-text true domain Level.debug true body = refl
format_message-text true domain Level.error false body = refl
format_message-text true domain Level.critical false body = refl
format_message-text true domain Level.warning false body = refl
format_message-text true domain Level.message false body = refl
format_message-text true domain Level.info false body = refl
format_message-text true domain Level.debug false body = refl
format_message-text false domain Level.error true body = refl
format_message-text false domain Level.critical true body = refl
format_message-text false domain Level.warning true body = refl
format_message-text false domain Level.message true body = refl
format_message-text false domain Level.info true body = refl
format_message-text false domain Level.debug true body = refl
format_message-text false domain Level.error false body = refl
format_message-text false domain Level.critical false body = refl
format_message-text false domain Level.warning false body = refl
format_message-text false domain Level.message false body = refl
format_message-text false domain Level.info false body = refl
format_message-text false domain Level.debug false body = refl
