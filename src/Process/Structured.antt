-- ===== src/Process/Structured.antt =====
-- src/log/glib-handlers.c: structured_handler, which handles structured messages. The strings of a
-- field are those whose length is -1; g_strescape is a parameter, and so is whether the stack that
-- do_abort unwinds has the frame of g_logv.
pub mod Fields
pub mod Outside
use giitestutils.Base.{
  ℕ, ◌≡◌, ◌≢◌, refl, sym, ap, ◌∙◌, Bool, true, false, not, ◌&&◌, ◌||◌, List, [], ◌∷◌, ◌++◌, Option,
  none, some, arith, Bytes, codes, str_eq, if◌then◌else◌, Checked, done, critical,
}
use giitestutils.Base.Exec.{Exec, returned, aborted, pure, stop, ◌>>=◌, ◌>>◌, on_checked}
use giitestutils.Base.Exec.Steps.{bind-returned}
use giitestutils.Log.Level.{GLogLevelFlags, Level, level_flags}
use giitestutils.Log.Level.Flags.{IsConsistent, is_shown}
use giitestutils.Log.Message.{GtuLogGMessage, format_message}
use giitestutils.Log.Message.Text.{leveled, text_of, format_message-text}
use giitestutils.Log.Tap.{gtu_log_diagnostic, gtu_log_bail_out, is_some}
use giitestutils.Log.Hooks.{GtuLogAction, continue, ignore, suppress, abort, run_hooks}
use giitestutils.Process.{
  Env, World, HookTarget, verbosity_handler, on_log, or_abort, Signal, goes_on, preempted,
  call_hook, suppress_message, g_log, gtu_log_log_domain,
}
use giitestutils.Process.Expect.{common_bits}

-- `none` for the value is binary data.
pub record GLogField : Type 0 where
  pub key : Bytes
  pub value : Option Bytes

-- GLogWriterOutput, or the jump to the abort handler.
pub data Written : Type 0 where
  handled unhandled jumped : Written

pub record Found : Type 0 where
  pub domain : Option Bytes
  pub message : Option Bytes

-- A field that is looked for has to be a string.
abbrev string_of : GLogField → Found → (Bytes → Found) → Checked Found
string_of field found f = elim field.value [ none ↦ critical found | some value ↦ done (f value) ]

unfoldable pub take_field : GLogField → Found → Checked Found
unfolding str_eq
take_field field found =
    if str_eq field.key (codes "MESSAGE")
    then string_of field found (λ value. record found { message = some value })
    else if str_eq field.key (codes "GLIB_DOMAIN")
    then string_of field found (λ value. record found { domain = some value })
    else done found

-- The loop that collects the domain and the message.
unfoldable pub collect_fields : List GLogField → Found → Checked Found
unfolding take_field
collect_fields [] found = done found
collect_fields (field ∷ fields) found =
    if is_some found.message && is_some found.domain
    then done found
    else elim (take_field field found) [
      | critical f ↦ critical f
      | done f ↦ collect_fields fields f
    ]

module _ (strescape : Bytes → Bytes) where
  -- "'%s': %s\n"
  abbrev pub field_line : GLogField → Bytes
  field_line field =
      b'\'' ∷ field.key
      ++ codes "': "
      ++ elim field.value [ none ↦ codes "<binary data>" | some value ↦ strescape value ]
      ++ b'\n' ∷ []

  unfoldable pub field_lines : List GLogField → Bytes
  field_lines [] = []
  field_lines (field ∷ fields) = field_line field ++ field_lines fields

abbrev behind_space : Option Bytes → Option Bytes
behind_space none = none
behind_space (some text) = some (b' ' ∷ text)

-- The message in the first line of the text; `none`: a g_assert failed.
unfoldable pub head_text : Bool → Option Bytes → Option Bytes → GLogLevelFlags → Option Bytes
unfolding format_message
head_text supports_color domain none level = some []
head_text supports_color domain (some message) level =
    behind_space
      (format_message supports_color (record { domain = domain; flags = level; body = message }))

module _ (env : Env) (strescape : Bytes → Bytes) (fields : List GLogField) where
  -- The text, and for a fatal message the end of the program.
  unfoldable pub print_structured :
      Option Bytes → Option Bytes → GLogLevelFlags → Exec World Written
  unfolding head_text field_lines on_log
  print_structured domain message level = do
    text ← or_abort (head_text env.supports_color domain message level)
    on_log (
        gtu_log_diagnostic
          (codes "Structured message:" ++ text ++ b'\n' ∷ field_lines strescape fields))
    if level.fatal
        then on_log (gtu_log_bail_out true (some (codes "Fatal structured message received")))
        else pure handled

  -- What follows the loop of invoke_hooks.
  unfoldable pub structured_finish : Bool → GtuLogAction → GtuLogGMessage → Exec World Written
  unfolding print_structured suppress_message
  structured_finish in_logv continue message =
      print_structured message.domain (some message.body) message.flags
  structured_finish in_logv ignore message = pure handled
  structured_finish in_logv suppress message = suppress_message env message >> pure handled
  structured_finish in_logv abort message = if in_logv then pure jumped else stop aborted

  -- The fields have been searched.
  unfoldable pub structured_found : Bool → GLogLevelFlags → Found → Exec World Written
  unfolding structured_finish run_hooks call_hook
  structured_found in_logv level found w = elim found.message [
    | none ↦ print_structured found.domain none level w
    | some body ↦
        (run_hooks (call_hook env) w.hooks
              (record { domain = found.domain; flags = level; body = body })
            >>= λ answer. structured_finish in_logv answer.0 answer.1)
          w
  ]

-- A g_return_val_if_fail of src/log fails. Its domain, too, is one whose criticals GLib marks as fatal.
unfoldable pub failed_log_check : Env → Bytes → Exec World Signal
unfolding g_log
failed_log_check env function = g_log env (record {
  domain = some gtu_log_log_domain;
  flags = record (level_flags Level.critical) { fatal = true };
  body = env.check_message function;
})

abbrev pub after_check : Signal → Exec World Written
after_check goes_on = pure unhandled
after_check preempted = pure jumped

module _ (env : Env) (strescape : Bytes → Bytes) where
  unfoldable pub structured_handler :
      Bool → GLogLevelFlags → GLogLevelFlags → List GLogField → Exec World Written
  unfolding structured_found collect_fields failed_log_check
  structured_handler in_logv fatal_mask level fields =
      let marked = record level { fatal = level.fatal || common_bits level fatal_mask } in
      on_checked (collect_fields fields (record { domain = none; message = none }))
        (structured_found env strescape fields in_logv marked)
        (λ found. failed_log_check env (codes "structured_handler") >>= after_check)
