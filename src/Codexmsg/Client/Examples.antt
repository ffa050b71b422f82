-- ===== src/Codexmsg/Client/Examples.antt =====
-- The theorems on codexmsg/client.go at concrete runs.
use harness_transport.Codexmsg.Client.Answers.{IsAnswer, run-IsAnswer}
use harness_transport.Codexmsg.Client.Fate.Run.{run-fate}
use harness_transport.Codexmsg.Client.Fate.{waits, answered, fate_in, fate_from, next_fate, answers}
use harness_transport.Codexmsg.Client.Invariant.{count, targets, run_once}
use harness_transport.Codexmsg.Client.{
  fresh, eof, channels, Action, takes, registers, reads, abandons, fails, act, run, take_id,
  register, on_message, respond, fail, member, remove, delete, lookup,
}
use harness_transport.Codexmsg.Jsonrpc.{Message, int_id, response_id, key}
use harness_transport.Prelude.{
  ℕ, ◌+◌, ◌≤◌, ◌≡◌, refl, true, false, ◌++◌, List, [], ◌∷◌, none, some, All, codes, is_empty,
  str_eq,
}
use harness_transport.Go.Json.{number}
use harness_transport.Go.Strconv.{itoa}

abbrev answer_to : ℕ → Message
answer_to n = record {
  id = some (int_id n);
  method = [];
  params = [];
  result = codes "{}";
  error = none;
}

-- Two calls, answers to the second and to a third that is not there, and the end.
abbrev two_calls : List Action
two_calls =
    takes
    ∷ takes
    ∷ registers 1
    ∷ registers 2
    ∷ reads (answer_to 2)
    ∷ reads (answer_to 3)
    ∷ reads (answer_to 2)
    ∷ fails eof
    ∷ takes
    ∷ registers 3
    ∷ []

run_once_example :
    count 2 (channels (run fresh two_calls).pending)
      + count 2 (targets (run fresh two_calls).sent)
      + count 2 (run fresh two_calls).hung
    ≤ 1
run_once_example = run_once two_calls 2

run-IsAnswer_example : All IsAnswer (run fresh two_calls).sent
run-IsAnswer_example = run-IsAnswer two_calls

two_calls_ended : (run fresh two_calls).closed ≡ true
unfolding run act fail register member take_id on_message response_id is_empty respond lookup remove
    str_eq key int_id number itoa delete
two_calls_ended = refl

-- Two ids are drawn; then the first call registers, the other gives up, and both get an answer.
abbrev two_taken : List Action
two_taken = takes ∷ takes ∷ []

abbrev first_answered : List Action
first_answered =
    registers 2 ∷ abandons 2 ∷ reads (answer_to 2) ∷ reads (answer_to 1) ∷ fails eof ∷ []

two_taken_open : (run fresh two_taken).closed ≡ false
unfolding run act take_id
two_taken_open = refl

one_taken : member 1 (run fresh two_taken).taken ≡ true
unfolding run act take_id member
one_taken = refl

run-fate_example :
    fate_in 1 (run fresh (two_taken ++ registers 1 ∷ first_answered))
    ≡ fate_from 1 waits first_answered
run-fate_example = run-fate two_taken first_answered 1 one_taken two_taken_open

first_answered_fate : fate_from 1 waits first_answered ≡ answered (answer_to 1)
unfolding fate_from next_fate answers response_id is_empty int_id
first_answered_fate = refl
