-- ===== src/Process/Expect/Counts.antt =====
-- How often an expectation has matched: src/test-case/expect.c and the loop of log_hook.
use Prim.Native.Nat.{◌^◌, ◌%◌}
use mathlib.Core.Option
use giitestutils.Base.{
  ℕ, zero, suc, ◌+◌, ◌<◌, ◌≡◌, refl, ap, ◌∙◌, Bool, true, false, not, ◌&&◌, ◌||◌, List, [], ◌∷◌,
  ◌++◌, none, some, arith, Bytes, length, ltb, if◌then◌else◌, Option-cases, Bool-cases, inl, inr,
  done, is_empty, str_eq,
}
use giitestutils.Log.Level.{GLogLevelFlags}
use giitestutils.Log.Message.{GtuLogGMessage}
use giitestutils.Process.Expect.{
  GtuExpectedMessage, common_bits, matches, counted, match_message, get_elem?, set,
  gtu_test_case_expect_message, gtu_test_case_expect_check, gtu_test_case_expect_count,
}

-- A message of a domain.
abbrev pub Received : Type 0
Received = Bytes × GtuLogGMessage

-- The expectation at this index is the first that matches the message.
abbrev pub is_first : Received → List GtuExpectedMessage → ℕ → Bool
is_first m [] i = false
is_first m (e ∷ es) zero = matches m.0 m.1 e
is_first m (e ∷ es) (suc i) = not (matches m.0 m.1 e) && is_first m es i

-- How many of the messages it is the first match of.
abbrev pub tally : ℕ → List Received → List GtuExpectedMessage → ℕ
tally i [] es = 0
tally i (m ∷ ms) es = (if is_first m es i then 1 else 0) + tally i ms es

-- The expectations after messages: one that nothing matches leaves them.
abbrev pub receive : Received → List GtuExpectedMessage → List GtuExpectedMessage
receive m es = elim (match_message m.0 m.1 es) [ none ↦ es | some es' ↦ es' ]

abbrev pub receive_all : List Received → List GtuExpectedMessage → List GtuExpectedMessage
receive_all [] es = es
receive_all (m ∷ ms) es = receive_all ms (receive m es)

receive-next :
    (m : Received) (e : GtuExpectedMessage) (es : List GtuExpectedMessage)
    → receive m (e ∷ es) ≡ (if matches m.0 m.1 e then counted e ∷ es else e ∷ receive m es)
unfolding match_message
receive-next m e es = elim (Bool-cases (matches m.0 m.1 e)) [
  | inl here ↦ rw (here, receive) refl
  | inr later ↦ elim (Option-cases (match_message m.0 m.1 es)) [
    | inl nothing ↦ rw (later, nothing, receive) refl
    | inr (es', found) ↦ rw (later, found, receive) refl
  ]
]

-- The counts do not matter to what matches.
is_first-counted :
    (n : Received) (e : GtuExpectedMessage) (es : List GtuExpectedMessage) (i : ℕ)
    → is_first n (counted e ∷ es) i ≡ is_first n (e ∷ es) i
unfolding matches
is_first-counted n e es zero = refl
is_first-counted n e es (suc i) = refl

is_first-receive :
    (n m : Received) (es : List GtuExpectedMessage) (i : ℕ)
    → is_first n (receive m es) i ≡ is_first n es i
unfolding match_message
is_first-receive n m [] i = refl
is_first-receive n m (e ∷ es) i =
    ap (λ l. is_first n l i) (receive-next m e es)
    ∙ by_match (is_first-receive n m es) (matches m.0 m.1 e) i
  where
    by_match :
        ((j : ℕ) → is_first n (receive m es) j ≡ is_first n es j)
        → (b : Bool) (i : ℕ)
        → is_first n (if b then counted e ∷ es else e ∷ receive m es) i ≡ is_first n (e ∷ es) i
    by_match next true i = is_first-counted n e es i
    by_match next false zero = refl
    by_match next false (suc i) = ap (λ b. not (matches n.0 n.1 e) && b) (next i)

tally-receive :
    (i : ℕ) (ms : List Received) (m : Received) (es : List GtuExpectedMessage)
    → tally i ms (receive m es) ≡ tally i ms es
tally-receive i [] m es = refl
tally-receive i (n ∷ ms) m es = rw (is_first-receive n m es i, tally-receive i ms m es) refl

-- One message counts at the index of its first match, and nowhere else.
get-receive :
    (m : Received) (es : List GtuExpectedMessage) (i : ℕ) (e : GtuExpectedMessage)
    → get_elem? es i ≡ some e
    → get_elem? (receive m es) i ≡ some (if is_first m es i then counted e else e)
unfolding match_message
get-receive m [] i e h = ground arith
get-receive m (x ∷ es) i e h =
    ap (λ l. get_elem? l i) (receive-next m x es)
    ∙ by_match (λ j. get-receive m es j e) (matches m.0 m.1 x) i refl h
  where
    by_match :
        ((j : ℕ)
          → get_elem? es j ≡ some e
          → get_elem? (receive m es) j ≡ some (if is_first m es j then counted e else e))
        → (b : Bool) (i : ℕ) → matches m.0 m.1 x ≡ b
        → get_elem? (x ∷ es) i ≡ some e
        → get_elem? (if b then counted x ∷ es else x ∷ receive m es) i
          ≡ some (if is_first m (x ∷ es) i then counted e else e)
    by_match next true zero q k = rw q (ap (Option.map counted) k)
    by_match next false zero q k = rw q k
    by_match next true (suc i) q k = rw q k
    by_match next false (suc i) q k = rw q (next i k)

-- After any messages, an expectation has counted those that it is the first match of.
get-receive_all :
    (ms : List Received) (es : List GtuExpectedMessage) (i : ℕ) (e : GtuExpectedMessage)
    → get_elem? es i ≡ some e
    → e.match_count < 2 ^ 32
    → get_elem? (receive_all ms es) i
      ≡ some (record e { match_count = (e.match_count + tally i ms es) % 2 ^ 32 })
get-receive_all [] es i e h k = h ∙ ap (λ n. some (record e { match_count = n })) (omega arith)
get-receive_all (m ∷ ms) es i e h k = elim (Bool-cases (is_first m es i)) [
  | inl first ↦
      get-receive_all ms (receive m es) i (counted e) (get-receive m es i e h ∙ rw first refl)
        (omega arith)
      ∙ ap (λ n. some (record e { match_count = n }))
          (rw (first, tally-receive i ms m es) (omega arith))
  | inr later ↦
      get-receive_all ms (receive m es) i e (get-receive m es i e h ∙ rw later refl) k
      ∙ ap (λ n. some (record e { match_count = n }))
          (rw (later, tally-receive i ms m es) (omega arith))
]

get-snoc {ℓ} : {A : Type ℓ} (xs : List A) (x : A) → get_elem? (xs ++ x ∷ []) (length xs) ≡ some x
get-snoc [] x = refl
get-snoc (y ∷ xs) x = get-snoc xs x

get-set {ℓ} :
    {A : Type ℓ} (xs : List A) (i : ℕ) (x y : A)
    → get_elem? xs i ≡ some x
    → get_elem? (set xs i y) i ≡ some y
get-set [] i x y h = ground arith
get-set (z ∷ xs) zero x y h = refl
get-set (z ∷ xs) (suc i) x y h = get-set xs i x y h

expect_check-get :
    (i : ℕ) (msgs : List GtuExpectedMessage) (e : GtuExpectedMessage)
    → get_elem? msgs i ≡ some e
    → gtu_test_case_expect_check i msgs ≡ done (ltb 0 e.match_count)
unfolding gtu_test_case_expect_check
expect_check-get i msgs e h = rw (h, gtu_test_case_expect_check) refl

expect_count-get :
    (i : ℕ) (msgs : List GtuExpectedMessage) (e : GtuExpectedMessage)
    → get_elem? msgs i ≡ some e
    → gtu_test_case_expect_count i msgs
      ≡ done (e.match_count, set msgs i (record e { match_count = 0 }))
unfolding gtu_test_case_expect_count
expect_count-get i msgs e h = rw (h, gtu_test_case_expect_count) refl

-- The message is of this domain, has one of these flags, and its text is matched.
abbrev pub wanted : Bytes → GLogLevelFlags → (Bytes → Bool) → Received → Bool
wanted domain level regex m = str_eq domain m.0 && common_bits m.1.flags level && regex m.1.body

-- One of the expectations wants the message.
abbrev pub wanted_before : List GtuExpectedMessage → Received → Bool
wanted_before [] m = false
wanted_before (e ∷ es) m = wanted e.domain e.flags e.regex m || wanted_before es m

-- How many of the messages are wanted, and by none of these expectations.
abbrev pub wanted_first :
    Bytes → GLogLevelFlags → (Bytes → Bool) → List GtuExpectedMessage → List Received → ℕ
wanted_first domain level regex msgs [] = 0
wanted_first domain level regex msgs (m ∷ ms) =
    (if not (wanted_before msgs m) && wanted domain level regex m then 1 else 0)
    + wanted_first domain level regex msgs ms

-- A new expectation, that has matched nothing.
abbrev pub expecting : Bytes → GLogLevelFlags → (Bytes → Bool) → GtuExpectedMessage
expecting domain level regex = record {
  domain = domain;
  regex = regex;
  match_count = 0;
  flags = level;
}

module _ (domain : Bytes) (level : GLogLevelFlags) (regex : Bytes → Bool) where
  is_first-snoc :
      (m : Received) (msgs : List GtuExpectedMessage)
      → is_first m (msgs ++ expecting domain level regex ∷ []) (length msgs)
        ≡ (not (wanted_before msgs m) && wanted domain level regex m)
  unfolding matches
  is_first-snoc m [] = refl
  is_first-snoc m (e ∷ es) = ground (arith, is_first-snoc m es)

  tally-snoc :
      (ms : List Received) (msgs : List GtuExpectedMessage)
      → tally (length msgs) ms (msgs ++ expecting domain level regex ∷ [])
        ≡ wanted_first domain level regex msgs ms
  tally-snoc [] msgs = refl
  tally-snoc (m ∷ ms) msgs = rw (is_first-snoc m msgs, tally-snoc ms msgs) refl

-- An expectation of any domain but the library's own and the empty one is accepted: it is put behind
-- the others with the domain, the flags and the regular expression that were asked for, and its handle
-- is the number of expectations before it. After any messages, its count is the number (as a 32-bit
-- counter) of those that are of this domain, have one of the flags and match, and that no earlier
-- expectation wants; gtu_test_case_expect_check tells whether it is positive, and
-- gtu_test_case_expect_count gives it and changes nothing but that it is zero again, so that a check
-- that follows is false.
pub expect_count-tally :
    (own domain : Bytes) (level : GLogLevelFlags) (regex : Bytes → Bool)
    (msgs : List GtuExpectedMessage) (ms : List Received)
    → is_empty domain ≡ false
    → str_eq own domain ≡ false
    → let after = msgs ++ expecting domain level regex ∷ [] in
      let count = wanted_first domain level regex msgs ms % 2 ^ 32 in
      let reset = set (receive_all ms after) (length msgs) (expecting domain level regex) in
      (gtu_test_case_expect_message own (some domain) level regex msgs ≡ done (length msgs, after))
      × (gtu_test_case_expect_check (length msgs) (receive_all ms after) ≡ done (ltb 0 count))
      × (gtu_test_case_expect_count (length msgs) (receive_all ms after) ≡ done (count, reset))
      × (gtu_test_case_expect_check (length msgs) reset ≡ done false)
unfolding gtu_test_case_expect_message
expect_count-tally own domain level regex msgs ms named other =
    let new : GtuExpectedMessage = expecting domain level regex in
    let after : List GtuExpectedMessage = msgs ++ new ∷ [] in
    let n : ℕ = wanted_first domain level regex msgs ms % 2 ^ 32 in
    let final : List GtuExpectedMessage = receive_all ms after in
    let h : get_elem? final (length msgs) ≡ some (record new { match_count = n }) =
      get-receive_all ms after (length msgs) new (get-snoc msgs new) (omega arith)
      ∙ ap (λ k. some (record new { match_count = k }))
          (omega (arith, tally-snoc domain level regex ms msgs)) in
    (
      rw (named, other) refl,
      expect_check-get (length msgs) final (record new { match_count = n }) h,
      expect_count-get (length msgs) final (record new { match_count = n }) h,
      expect_check-get (length msgs) (set final (length msgs) new) new
          (get-set final (length msgs) (record new { match_count = n }) new h),
    )
