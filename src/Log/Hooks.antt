-- ===== src/Log/Hooks.antt =====
-- src/log/hooks.c: the stack of log hooks. `F` is the type of the hooks' functions, `T` of their
-- targets. The locks are not modelled, and the stack unwinding of do_abort is the action `abort`.
pub mod Stack
use giitestutils.Base.{
  ℕ, ◌≡◌, refl, Bool, true, false, List, [], ◌∷◌, ◌++◌, Option, none, some, if◌then◌else◌, arith,
  Option-cases, inl, inr,
}
use giitestutils.Base.Exec.{Exec, Outcome, returned, aborted, ◌>>=◌, pure}
use giitestutils.Log.Message.{GtuLogGMessage}

pub data GtuLogAction : Type 0 where
  continue ignore suppress abort : GtuLogAction

pub record Hook (F T : Type 0) : Type 0 where
  pub func : F
  pub target : T

module _ {F T : Type 0} where
  unfoldable pub gtu_log_hooks_push : F → T → List (Hook F T) → List (Hook F T)
  gtu_log_hooks_push hook user_data hooks = record { func = hook; target = user_data } ∷ hooks

  -- `same` compares two function pointers; `none`: g_assert_not_reached, or the stack is empty.
  unfoldable pub gtu_log_hooks_pop : (F → F → Bool) → F → List (Hook F T) → Option (List (Hook F T))
  gtu_log_hooks_pop same hook [] = none
  gtu_log_hooks_pop same hook (h ∷ hooks) =
      let rest = gtu_log_hooks_pop same hook hooks in
      if same h.func hook then some hooks else elim rest [ none ↦ none | some r ↦ some (h ∷ r) ]

  -- The loop of invoke_hooks: the first action that is not `continue`, and the message as the
  -- hooks have changed it.
  module _ {W : Type 0}
      (call : F → T → GtuLogGMessage → Exec W (GtuLogAction × GtuLogGMessage)) where
    unfoldable pub run_hooks :
        List (Hook F T) → GtuLogGMessage → Exec W (GtuLogAction × GtuLogGMessage)
    run_hooks [] message = pure (continue, message)
    run_hooks (h ∷ hooks) message = call h.func h.target message >>= λ answer. elim answer.0 [
      | continue ↦ run_hooks hooks answer.1
      | ignore ↦ pure answer
      | suppress ↦ pure answer
      | abort ↦ pure answer
    ]
