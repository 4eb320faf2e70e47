-- ===== src/Process/Structured/Outside.antt =====
-- What becomes of a structured message outside a test (src/log/glib-handlers.c).
use giitestutils.Base.{Bool, true, false, List, ◌∷◌, ◌++◌, Option, some, Bytes, codes}
use giitestutils.Base.Exec.{Exec, pure, ◌>>◌}
use giitestutils.Log.Level.{Level}
use giitestutils.Log.Message.Text.{text_of}
use giitestutils.Log.Tap.{gtu_log_diagnostic, gtu_log_bail_out}
use giitestutils.Process.{Env, World, on_log}
use giitestutils.Process.Policy.{Treatment, print, bail}
use giitestutils.Process.Structured.{GLogField, Written, handled, field_lines}

abbrev pub structured_text :
    Env → (Bytes → Bytes) → List GLogField → Option Bytes → Level → Bool → Bytes → Bytes
structured_text env strescape fields domain level fatal body =
    codes "Structured message: "
    ++ text_of env.supports_color domain level fatal body
    ++ b'\n' ∷ field_lines strescape fields

-- What a treatment of a structured message is: its text, and for a fatal one another line and a trap.
abbrev pub perform_structured :
    Env
    → (Bytes → Bytes)
    → List GLogField
    → Option Bytes
    → Level
    → Bytes
    → Treatment
    → Exec World Written
perform_structured env strescape fields domain level body bail =
    on_log (gtu_log_diagnostic (structured_text env strescape fields domain level true body))
    >> on_log (gtu_log_bail_out true (some (codes "Fatal structured message received")))
perform_structured env strescape fields domain level body print =
    on_log (gtu_log_diagnostic (structured_text env strescape fields domain level false body))
    >> pure handled
perform_structured env strescape fields domain level body _ = pure handled
