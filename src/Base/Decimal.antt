-- ===== src/Base/Decimal.antt =====
-- printf's `%u`, and a format string that is given no arguments.
use Prim.Native.Nat.{ℕ, zero, suc, ◌+◌, ◌-◌, ◌*◌, ◌/◌, ◌%◌, ◌<◌}
use mathlib.Core.Path.{◌≡◌, refl, ap, ◌∙◌}
use mathlib.Core.Option
use mathlib.Core.Option.{Option, none, some}
use mathlib.Core.Bool.{false}
use mathlib.Core.List.{[], ◌∷◌}
use mathlib.Core.Logic.{inl, inr}
use native.Mathlib.Omega.{arith}
use giitestutils.Base.Tests.{ltb, ◌==◌, Bool-cases, if◌then◌else◌}
use giitestutils.Base.Lists.{Bytes, All}

-- The digits of `n` in front of `acc`; the fuel is above `n`.
decimal_loop : ℕ → ℕ → Bytes → Bytes
decimal_loop zero n acc = acc
decimal_loop (suc fuel) n acc =
    let rest = decimal_loop fuel (n / 10) ((b'0' + n % 10) ∷ acc) in
    if ltb n 10 then (b'0' + n) ∷ acc else rest

unfoldable pub decimal : ℕ → Bytes
unfolding decimal_loop
decimal n = decimal_loop (suc n) n []

abbrev pub number_from : ℕ → Bytes → ℕ
number_from n [] = n
number_from n (c ∷ cs) = number_from (n * 10 + (c - b'0')) cs

decimal_loop-number :
    (fuel n : ℕ) (acc : Bytes)
    → n < fuel
    → number_from 0 (decimal_loop fuel n acc) ≡ number_from n acc
unfolding decimal_loop
decimal_loop-number zero n acc h = absurd (omega arith)
decimal_loop-number (suc fuel) n acc h = elim (Bool-cases (ltb n 10)) [
  | inl small ↦ rw small (ap (λ m. number_from m acc) (omega arith))
  | inr large ↦ rw large (
      decimal_loop-number fuel (n / 10) ((b'0' + n % 10) ∷ acc) (ground arith)
      ∙ ap (λ m. number_from m acc) (omega arith))
]

-- The digits that `%u` prints read as the number.
pub number-decimal : (n : ℕ) → number_from 0 (decimal n) ≡ n
unfolding decimal
number-decimal n = decimal_loop-number (suc n) n [] (omega arith)

-- `none`: a conversion has no argument to convert, which is undefined.
unfoldable pub format_no_args : Bytes → Option Bytes
format_no_args [] = some []
format_no_args (c ∷ []) = if c == b'%' then none else some (c ∷ [])
format_no_args (c ∷ d ∷ cs) =
    let rest = format_no_args cs in
    let next = format_no_args (d ∷ cs) in
    if c == b'%'
    then if d == b'%' then Option.map (λ l. c ∷ l) rest else none
    else Option.map (λ l. c ∷ l) next

-- A text with no per cent sign is printed as it is.
pub format_no_args-plain :
    (s : Bytes) → All (λ c. (c == b'%') ≡ false) s → format_no_args s ≡ some s
unfolding format_no_args
format_no_args-plain [] a = refl
format_no_args-plain (c ∷ []) a = rw a.0
format_no_args-plain (c ∷ d ∷ cs) a = rw a.0 (rw (format_no_args-plain (d ∷ cs) a.1))
