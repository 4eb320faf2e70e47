-- ===== src/Base/Outcome.antt =====
-- A call that begins with GLib checks (g_return_if_fail).

-- `critical a`: a check failed, GLib logged a critical message, and the call returned `a`.
pub data Checked {ℓ} (A : Type ℓ) : Type ℓ where
  done : A → Checked A
  critical : A → Checked A

-- What the caller has after the call.
abbrev pub value {ℓ} : {A : Type ℓ} → Checked A → A
value (done a) = a
value (critical a) = a
