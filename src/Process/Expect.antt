-- ===== src/Process/Expect.antt =====
-- src/test-case/expect.c and the matching loop of src/test-case/run-init.c. A GRegex is the function
-- that tells whether it matches a text (with G_REGEX_MATCH_NOTEMPTY).
pub mod Counts
use Prim.Native.Nat.{bit_and, ◌^◌, ◌%◌}
use giitestutils.Base.{
  ℕ, zero, suc, ◌+◌, ◌-◌, Bool, true, false, not, ◌&&◌, ◌||◌, List, [], ◌∷◌, ◌++◌, Option, none,
  some, is_empty, length, ltb, ◌==◌, if◌then◌else◌, Bytes, str_eq, codes, Checked, done, critical,
}
use giitestutils.Log.Level.{GLogLevelFlags}
use giitestutils.Log.Message.{GtuLogGMessage}

pub record GtuExpectedMessage : Type 0 where
  pub domain : Bytes
  pub regex : Bytes → Bool
  pub match_count : ℕ
  pub flags : GLogLevelFlags

-- (a & b) != 0
abbrev pub common_bits : GLogLevelFlags → GLogLevelFlags → Bool
common_bits a b =
    (a.recursion && b.recursion)
    || (a.fatal && b.fatal)
    || (a.error && b.error)
    || (a.critical && b.critical)
    || (a.warning && b.warning)
    || (a.message && b.message)
    || (a.info && b.info)
    || (a.debug && b.debug)
    || not (bit_and a.user b.user == 0)

-- The three tests of log_hook's loop, for a message of this domain.
unfoldable pub matches : Bytes → GtuLogGMessage → GtuExpectedMessage → Bool
unfolding str_eq
matches domain message expect =
    str_eq expect.domain domain
    && common_bits message.flags expect.flags
    && expect.regex message.body

-- g_atomic_int_inc on a 32-bit counter.
abbrev pub counted : GtuExpectedMessage → GtuExpectedMessage
counted expect = record expect { match_count = (expect.match_count + 1) % 2 ^ 32 }

-- The loop of log_hook: the first expectation that matches counts the message.
unfoldable pub match_message :
    Bytes → GtuLogGMessage → List GtuExpectedMessage → Option (List GtuExpectedMessage)
unfolding matches
match_message domain message [] = none
match_message domain message (e ∷ es) =
    let rest = match_message domain message es in
    if matches domain message e
    then some (counted e ∷ es)
    else elim rest [ none ↦ none | some es' ↦ some (e ∷ es') ]

-- (unsigned) -1, the handle of a refused expectation.
abbrev pub no_handle : ℕ
no_handle = 2 ^ 32 - 1

-- gtu_test_case_expect_message: the handle, and the expectations after the call.
unfoldable pub gtu_test_case_expect_message :
    Bytes
    → Option Bytes
    → GLogLevelFlags
    → (Bytes → Bool)
    → List GtuExpectedMessage
    → Checked (ℕ × List GtuExpectedMessage)
unfolding str_eq
gtu_test_case_expect_message log_domain none level regex msgs = critical (no_handle, msgs)
gtu_test_case_expect_message log_domain (some domain) level regex msgs =
    if is_empty domain || str_eq log_domain domain
    then critical (no_handle, msgs)
    else done (
      length msgs,
      msgs ++ record { domain = domain; regex = regex; match_count = 0; flags = level } ∷ [],
    )

abbrev pub get_elem? {ℓ} : {A : Type ℓ} → List A → ℕ → Option A
get_elem? [] i = none
get_elem? (x ∷ xs) zero = some x
get_elem? (x ∷ xs) (suc i) = get_elem? xs i

abbrev pub set {ℓ} : {A : Type ℓ} → List A → ℕ → A → List A
set [] i v = []
set (x ∷ xs) zero v = v ∷ xs
set (x ∷ xs) (suc i) v = x ∷ set xs i v

unfoldable pub gtu_test_case_expect_check : ℕ → List GtuExpectedMessage → Checked Bool
gtu_test_case_expect_check handle msgs = elim (get_elem? msgs handle) [
  | none ↦ critical false
  | some msg ↦ done (ltb 0 msg.match_count)
]

-- The count, which the call resets.
unfoldable pub gtu_test_case_expect_count :
    ℕ → List GtuExpectedMessage → Checked (ℕ × List GtuExpectedMessage)
gtu_test_case_expect_count handle msgs = elim (get_elem? msgs handle) [
  | none ↦ critical (0, msgs)
  | some msg ↦ done (msg.match_count, set msgs handle (record msg { match_count = 0 }))
]
