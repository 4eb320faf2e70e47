-- ===== src/Tests/OnProcess.antt =====
-- The handling of messages, on concrete messages.
use Prim.Native.Nat.{◌%◌, ◌^◌}
use giitestutils.Base.{
  ◌≡◌, refl, Bool, true, false, List, [], ◌∷◌, none, some, Bytes, codes, ltb, done, str_eq,
}
use giitestutils.Base.Exec.{returned, ◌>>=◌}
use giitestutils.Log.Level.{Level, level_flags}
use giitestutils.Log.Message.Text.{leveled}
use giitestutils.Log.Tap.{is_some}
use giitestutils.Process.{World, pass, null, message_handler, gtu_log_domain, preempted}
use giitestutils.Process.Expect.{
  set, GtuExpectedMessage, gtu_test_case_expect_message, gtu_test_case_expect_check,
  gtu_test_case_expect_count,
}
use giitestutils.Process.Expect.Counts.{
  Received, receive_all, expecting, wanted_first, expect_count-tally,
}
use giitestutils.Process.Policy.{perform, treatment, message_handler-outside}
use giitestutils.Process.Policy.LogHook.{both}
use giitestutils.Process.Policy.InTest.{IsRunning, found, with_found, message_handler-in_test}
use giitestutils.Tests.Data.{env, world, quick_run, quick_run-IsConsistent, warning}

message_handler-outside_example :
    message_handler env (leveled (some (codes "App")) Level.message false (codes "hello")) world
    ≡ perform env
        (some (codes "App"))
        Level.message
        false
        (codes "hello")
        (treatment false false quick_run Level.message false)
        world
message_handler-outside_example =
    message_handler-outside env refl quick_run-IsConsistent (some (codes "App")) Level.message false
      (codes "hello") null world refl

abbrev running : World
running = record world {
  hooks = both null;
  expected_msgs = some [];
  tr_context = some (record { message = none; result = pass });
}

running-IsRunning : IsRunning running [] null
running-IsRunning = record {
  hooked = refl;
  expects = refl;
  context = record { message = none; result = pass };
  in_context = refl;
  no_message = refl;
}

message_handler-in_test_example :
    message_handler env (leveled (some (codes "App")) Level.warning false (codes "low")) running
    ≡ perform env
        (some (codes "App"))
        Level.warning
        false
        (codes "low")
        (treatment true
          (is_some (found (leveled (some (codes "App")) Level.warning false (codes "low")) []))
          quick_run
          Level.warning
          false)
        (with_found
          (found (leveled (some (codes "App")) Level.warning false (codes "low")) [])
          running)
message_handler-in_test_example =
    message_handler-in_test env refl quick_run-IsConsistent (some (codes "App")) Level.warning false
      (codes "low") null [] running running-IsRunning

-- The warning ends the test.
warning_fails : (message_handler env warning running).0 ≡ returned preempted
unfolding message_handler ◌>>=◌
warning_fails = refl

abbrev low : Bytes → Bool
low text = true

abbrev two_warnings : List Received
two_warnings = (codes "App", warning) ∷ (codes "Lib", warning) ∷ (codes "App", warning) ∷ []

other_domain : str_eq gtu_log_domain (codes "App") ≡ false
unfolding str_eq
other_domain = refl

abbrev app_warnings : List GtuExpectedMessage
app_warnings = expecting (codes "App") (level_flags Level.warning) low ∷ []

expect_count-tally_example :
    (gtu_test_case_expect_message gtu_log_domain
        (some (codes "App"))
        (level_flags Level.warning)
        low
        []
      ≡ done (0, app_warnings))
    × (gtu_test_case_expect_check 0 (receive_all two_warnings app_warnings)
        ≡ done (
            ltb 0 (
              wanted_first (codes "App") (level_flags Level.warning) low [] two_warnings % 2 ^ 32)))
    × (gtu_test_case_expect_count 0 (receive_all two_warnings app_warnings)
        ≡ done (
          wanted_first (codes "App") (level_flags Level.warning) low [] two_warnings % 2 ^ 32,
          set
              (receive_all two_warnings app_warnings)
              0
              (expecting (codes "App") (level_flags Level.warning) low),
        ))
    × (gtu_test_case_expect_check 0 (
          set
            (receive_all two_warnings app_warnings)
            0
            (expecting (codes "App") (level_flags Level.warning) low))
        ≡ done false)
expect_count-tally_example =
    expect_count-tally gtu_log_domain (codes "App") (level_flags Level.warning) low [] two_warnings
      refl other_domain
