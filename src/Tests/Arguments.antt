-- ===== src/Tests/Arguments.antt =====
-- Runs of linux/input-router/src/main.rs, and its theorem at concrete data.
use beaglewing.Bridge.Hid.{Report, opened}
use beaglewing.Bridge.Session.{Session, Round, Read, received, would_block, accepted, handle_client}
use beaglewing.Client.Defs.{release_all, get_status}
use beaglewing.Client.Stream.{stream}
use beaglewing.CommandLine.{
  input_commands, tests, role, default_run, runs, test_commands, parse_observe, parse_test,
  parse_run,
}
use beaglewing.CommandLine.Course.{IsPaced, over, waits, reads}
use beaglewing.CommandLine.SendTest.{IsTested, handle_client-IsTested}
use beaglewing.CommandLine.Words.{
  word_run, word_observe, word_send_test, opt_bridge, opt_remote_size, opt_verbose, opt_device,
  opt_click, default_bridge,
}
use beaglewing.Common.Bytes.{Bytes}
use beaglewing.Tests.Cursor.{whole}
use beaglewing.Common.{
  length, ℕ, ◌≡◌, refl, Bool, true, false, Option, none, some, List, [], ◌∷◌, arith,
}

-- A number is written as that many bytes.
abbrev parse : Bytes → Option ℕ
parse text = some (length text)

role_run :
    role whole parse (
      word_run
      ∷ opt_verbose
      ∷ opt_remote_size
      ∷ (1 ∷ 1 ∷ 120 ∷ 1 ∷ [])
      ∷ opt_bridge
      ∷ (7 ∷ [])
      ∷ [])
    ≡ some (
        runs (record (default_run whole parse) {
          bridge_addr = 7 ∷ [];
          remote = record { width = 2; height = 1 };
          verbose = true;
        }))
unfolding role parse_run
role_run = refl

role_valueless : role whole parse (word_run ∷ opt_bridge ∷ []) ≡ none
unfolding role parse_run
role_valueless = refl

-- A `--device` at the end forgets the one before.
role_forgetful : role whole parse (word_observe ∷ opt_device ∷ (7 ∷ []) ∷ opt_device ∷ []) ≡ none
unfolding role parse_observe
role_forgetful = refl

role_tests :
    role whole parse (word_send_test ∷ opt_click ∷ [])
    ≡ some (tests (record { host = default_bridge; click = true }))
unfolding role parse_test
role_tests = refl

abbrev taking : List Report → Report → Bool
taking written r = true

abbrev answering : List Bytes → Bytes → Bool
answering sent frame = true

abbrev greeted_session : Session
greeted_session = record (accepted opened 0) { greeted = true }

-- The input, a pause, the release and the query.
abbrev round_of : ℕ → Read → Round
round_of now read = record { shutdown = false; now = now; read = read; read_at = now }

abbrev rounds : List Round
rounds =
    round_of 100 (received (stream (input_commands true)))
    ∷ round_of 4000 would_block
    ∷ round_of 5000 (received (stream (release_all ∷ [])))
    ∷ round_of 5100 (received (stream (get_status ∷ [])))
    ∷ []

rounds-IsPaced : IsPaced 0 (test_commands true) rounds
unfolding test_commands
rounds-IsPaced =
    reads (round_of 100 (received (stream (input_commands true)))) (input_commands true)
      (release_all ∷ get_status ∷ []) refl (omega arith) refl refl
      (waits (round_of 4000 would_block) refl (omega arith) refl (
        reads (round_of 5000 (received (stream (release_all ∷ [])))) (release_all ∷ [])
          (get_status ∷ []) refl (omega arith) refl refl
          (reads (round_of 5100 (received (stream (get_status ∷ [])))) (get_status ∷ []) [] refl
            (omega arith) refl refl over)))

handle_client-IsTested_example :
    IsTested taking answering greeted_session
      (handle_client taking answering greeted_session rounds)
handle_client-IsTested_example =
    handle_client-IsTested taking answering true greeted_session rounds refl refl
      (λ sent frame. refl) rounds-IsPaced
