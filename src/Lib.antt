-- ===== src/Lib.antt =====
-- GiiTestUtils (GTU), a C library on GLib for test programs that print TAP: a model of its paths, its
-- log, its handling of GLib's messages, its reference-counted test objects, and the run of test cases and
-- suites.
--
-- The parts, and how they interact. A test program builds a tree of suites and cases and calls
-- gtu_test_suite_run (src/test-suite), which prints a plan, runs each case (src/test-case) and prints
-- a result line for it through the log (src/log/tap.c). While a case runs, the messages that it logs
-- with GLib go through a stack of hooks (src/log/hooks.c, src/log/glib-handlers.c): the hook of the
-- running case checks its expectations and fails the case at an unexpected warning, the hook of
-- gtu_init filters by the verbosity (src/flags.c). Paths (src/path.c) name the cases and select them.
--
-- The files:
--   Base: shared names; Base/Exec is a state monad whose outcomes are a return, exit (n), an abort and
--     undefined behaviour, with Base/Exec/Keeps (invariants whatever the outcome) and
--     Base/Exec/Ensures (what holds on return; with `⊥`, that the action does return).
--   TestPath and its children: src/path.c. A path is its elements and its cached string.
--   Log/Level, Log/Level/Flags: GLogLevelFlags and src/flags.c. Log/Color: src/log/color.c.
--   Log/Message: src/log/glib-format.c. Log/Tap: src/log/tap.c, a printed line being a `Line`.
--   Log/Hooks: the stack of src/log/hooks.c.
--   Process: the state of a process (`World`) and its settings (`Env`), message_handler of
--     src/log/glib-handlers.c, invoke_hooks, verbosity_handler of src/init.c and log_hook of
--     src/test-case/run-init.c; Process/Expect: src/test-case/expect.c; Process/Policy: what becomes
--     of a message, against docs/considerations/logging.md; Process/Structured: structured_handler.
--     Log/Suppress: the function that decides on suppression.
--   TestCase: src/test-case/test-case.c and run-init.c; TestCase/Exec: run-setjmp.c, with a test
--     function given as the tree of its calls of the library; TestCase/Exec/Macros: the macros of
--     include/gtu-asserts.h and include/gtu-skips.h; TestCase/Complex: complex.c.
--   TestSuite: src/test-suite/test-suite.c and run.c.
--   Object and its children: src/object.c, and what src/test-suite/test-suite.c,
--     src/test-case/test-case.c and complex.c do with objects: Object itself the references and the
--     signal, Object/Paths the getters, Object/Suite gtu_test_suite_add, Object/Construct the
--     constructors, Object/Values the functions of a GValue. Object/Counts to Object/Adopt are the
--     lemmas: what references there are (Counts), how a store changes when one is dropped (Later,
--     Finalize, Unref), ancestry and paths (Ancestry, Emit, GetPath), what holds between two calls
--     (Valid). Object/Program: sequences of calls. Object/Collect and Object/Run: the run of a suite on
--     the store; Object/Collect/Tree: the tree of TestSuite that a store holds.
--   CommandLine: get_arg and parse_args of src/init.c, and the arguments that gtu_init gives to
--     g_test_init. What parse_args writes is a `Settings`.
--   Startup: gtu_init of src/init.c, gtu_log_hooks_init of src/log/hooks.c and the installation of
--     handlers of src/log/glib-handlers.c, on the static variables and what is set in GLib.
--   Tests: runs on concrete inputs, and the theorems at concrete inputs.
--
-- Conventions. A text is the list of its bytes before the terminator. C's unsigned counters wrap at
-- 2^32; an int that counts failures is a natural number. A failed g_assert is `aborted`; a failed
-- g_return_if_fail logs a critical message of GTU's domain, which is `failed_check` where the state
-- has a log, and `critical` in the pure parts. An object is a cell of a `Store` at an address that
-- is used once; to read a cell that has been freed, or a signal that does not end, is `undefined`.
-- A key of the set of a suite's names is the name of an object, read in that object when a text of the
-- same hash is looked up; distinct texts have distinct hashes.
-- Fuel: that of the decimal digits of a number is above the number; that of unref and of the signal
-- bounds the depth of the suites, and that of a path the number of ancestors, both of which the depth
-- of a valid store bounds.
--
-- Parameters: g_ascii_isspace, a GRegex (the texts that it matches), g_test_verbose and its like,
-- whether the terminal has colours, whether g_logv aborts behind a handler, the texts of
-- failed checks, g_strescape, what G_DEBUG and GTU_DEBUG ask for, whether libunwind finds g_logv.
--
-- Not modelled: memory and locks (one thread runs), so that an atomic operation is one step; the
-- registration of types in src/object.c; the stack unwinding in src/log/hooks.c,
-- which is the signal `preempted`.
mod Base
pub mod TestPath
pub mod Log
pub mod Process
pub mod TestCase
pub mod TestSuite
pub mod CommandLine
pub mod Object
pub mod Startup
pub mod Tests
