-- ===== src/Channel/Examples.antt =====
-- Runs of the channel of mobile/web/drift_worker.dart.js.
use bojairu.Prelude.{ℕ, ◌≡◌, refl, [], ◌∷◌}
use bojairu.Prelude.Dict.{insert, lookup, remove}
use bojairu.Channel.{
  Channel, new_channel, ask, success, cancelled, receive, resolve, send, end_connection, answered,
}
use bojairu.Channel.Answers.{here, next, received, futures, count, ask_lem}

abbrev start : Channel ℕ ℕ ℕ
start = new_channel

-- The request with the id 0 is answered, and then answered once more.
abbrev answered_twice : Channel ℕ ℕ ℕ
answered_twice = receive (receive (ask start 5).0 (success 0 7)) (cancelled 0)

one_outcome : answered_twice.outcomes ≡ (0, answered 7) ∷ []
unfolding ask send insert receive resolve lookup remove
one_outcome = refl

ask_lem_example :
    (futures 0 answered_twice ≡ 1) × (count 0 (end_connection answered_twice).outcomes ≡ 1)
ask_lem_example =
    ask_lem start answered_twice 5 here
      (next (next here (received (success 0 7))) (received (cancelled 0)))
